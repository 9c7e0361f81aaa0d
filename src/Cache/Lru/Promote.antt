-- ===== src/Cache/Lru/Promote.antt =====
-- Promote() moves a bucket to the front.
use here_olp_edge_sdk_cpp.Prelude.{
  bind_eq, ℕ, ◌≡◌, refl, sym, ap, ◌∙◌, Bool, true, false, none, some, List, [], ◌∷◌, ◌++◌, length,
  length-append, arith, if◌then◌else◌,
}
use here_olp_edge_sdk_cpp.Cache.Lru.{LruCache, promote, move_front}
use here_olp_edge_sdk_cpp.Cache.Lru.Chain.{
  head_or, last_or, around-at, around-front, set_next-at, set_previous-at, set_previous-before,
}
use here_olp_edge_sdk_cpp.Cache.Lru.Lists.{Middle, last_or-append}
use here_olp_edge_sdk_cpp.Cache.Lru.Relink.{relink_next_lem, set_next-last}
use here_olp_edge_sdk_cpp.Cache.Lru.Layout.{lay, bucket, opened, lay-opened}
use mathlib.Core.Logic.{if_pos, if_neg}
use mathlib.Core.Path.{fun_ext}

length-move {ℓ} :
    {A : Type ℓ} (xs : List A) (e : A) (ys : List A)
    → length (xs ++ e ∷ ys) ≡ length (e ∷ (xs ++ ys))
length-move xs e ys = omega (arith, length-append xs (e ∷ ys), length-append xs ys)

module _ {ℓ} {K V : Type ℓ} (dec : Discrete K) where
  module _ (f : K × V) (zs : List (K × V)) (k : K) (v : V) (ys : List (K × V)) (size max_size : ℕ)
      (has_callback : Bool) (evicted : List (K × V)) (m : Middle (f ∷ zs) k ys) where
    abbrev xs : List (K × V)
    xs = f ∷ zs

    abbrev count : ℕ
    count = length (xs ++ (k, v) ∷ ys)

    move_front-lay :
        move_front dec (lay dec (xs ++ (k, v) ∷ ys) size max_size has_callback evicted) k
        ≡ some (lay dec ((k, v) ∷ (xs ++ ys)) size max_size has_callback evicted)
    unfolding move_front
    move_front-lay =
        ap (λ (c : LruCache K V). move_front dec c k)
          (lay-opened dec xs k v ys size max_size has_callback evicted m.before)
        ∙ bind_eq _ (around-at dec k (bucket dec xs v ys) none xs (some k) (some k) ys)
        ∙ bind_eq _ (
            set_next-last dec k (bucket dec xs v ys) xs (head_or ys none) (some k) ys count
              (λ p. cc) m.before m.left)
        ∙ bind_eq _ (
            relink_next_lem dec k (opened dec xs k v ys size max_size has_callback evicted)
              (bucket dec xs v ys) xs (head_or ys none) (some k) (last_or none xs) ys count m
              (last_or-append none xs ((k, v) ∷ ys)))
        ∙ bind_eq _ (
            set_previous-at dec k (bucket dec xs v ys) none xs (head_or ys none) (last_or none xs)
              ys count none)
        ∙ bind_eq _ (
            set_next-at dec k (record (bucket dec xs v ys) { previous = none }) none xs
              (head_or ys none) (last_or none xs) ys count (some f.0))
        ∙ bind_eq _ (
            set_previous-before dec k (record { next = some f.0; previous = none; value = v }) none
              f zs (head_or ys none) (last_or none xs) ys count (some k) (λ p. m.before.0 (sym p)))
        ∙ (λ i. some (record {
          buckets = record {
            find = fun_ext (λ j. around-front dec k v xs ys j) i;
            count = length-move xs (k, v) ys i;
          };
          first = some k;
          last = sym (last_or-append none xs ys) i;
          max_size = max_size;
          size = size;
          has_callback = has_callback;
          evicted = evicted;
        }))

  pub promote-lay :
      (xs : List (K × V)) (k : K) (v : V) (ys : List (K × V)) (size max_size : ℕ)
      (has_callback : Bool) (evicted : List (K × V))
      → Middle xs k ys
      → promote dec (lay dec (xs ++ (k, v) ∷ ys) size max_size has_callback evicted) k
        ≡ some (lay dec ((k, v) ∷ (xs ++ ys)) size max_size has_callback evicted)
  unfolding promote
  promote-lay [] k v ys size max_size has_callback evicted m =
      ap (λ (t : Bool). if t then some c else move_front dec c k) (if_pos (dec k k) refl true false)
    where
      c : LruCache K V
      c = lay dec ((k, v) ∷ ys) size max_size has_callback evicted
  promote-lay (f ∷ zs) k v ys size max_size has_callback evicted m =
      ap (λ (t : Bool). if t then some c else move_front dec c k)
        (if_neg (dec f.0 k) m.before.0 true false)
      ∙ move_front-lay f zs k v ys size max_size has_callback evicted m
    where
      c : LruCache K V
      c = lay dec ((f ∷ zs) ++ (k, v) ∷ ys) size max_size has_callback evicted
