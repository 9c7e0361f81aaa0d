-- ===== src/Cache/Lru/Layout.antt =====
-- A list of entries laid out as a cache, and what the inner operations do to it.
use here_olp_edge_sdk_cpp.Prelude.{
  bind_eq, ℕ, ◌+◌, ◌-◌, ◌%◌, ◌≡◌, sym, ap, ◌∙◌, ◌&&◌, Bool, Option, none, some, List, ◌∷◌, ◌++◌,
  length, length-append, arith, u64_mod,
}
use here_olp_edge_sdk_cpp.Cache.Lru.{Bucket, LruCache, erase_at, called}
use here_olp_edge_sdk_cpp.Cache.Lru.Chain.{
  head_or, last_or, Absent, around, around-at, around-erase, seg, seg-around,
}
use here_olp_edge_sdk_cpp.Cache.Lru.Lists.{Middle, last_or-append, head_or-append}
use here_olp_edge_sdk_cpp.Cache.Lru.Relink.{relink_next_lem, relink_previous_lem}
use mathlib.Core.Path.{fun_ext}

module _ {ℓ} {K V : Type ℓ} (dec : Discrete K) where
  -- `size` is kept beside the entries, since it differs from their cost within AddInternal().
  abbrev pub lay : List (K × V) → ℕ → ℕ → Bool → List (K × V) → LruCache K V
  lay es size max_size has_callback evicted = record {
    buckets = record { find = seg dec none es none; count = length es };
    first = head_or es none;
    last = last_or none es;
    max_size = max_size;
    size = size;
    has_callback = has_callback;
    evicted = evicted;
  }

  abbrev pub bucket : List (K × V) → V → List (K × V) → Bucket K V
  bucket xs v ys = record { next = head_or ys none; previous = last_or none xs; value = v }

  -- The layout with the bucket of `k` taken out of its chain.
  abbrev pub opened :
      List (K × V) → K → V → List (K × V) → ℕ → ℕ → Bool → List (K × V) → LruCache K V
  opened xs k v ys size max_size has_callback evicted =
      record (lay (xs ++ (k, v) ∷ ys) size max_size has_callback evicted) {
        buckets = record {
          find = around dec k (bucket xs v ys) none xs (some k) (some k) ys;
          count = length (xs ++ (k, v) ∷ ys);
        };
      }

  pub lay-opened :
      (xs : List (K × V)) (k : K) (v : V) (ys : List (K × V)) (size max_size : ℕ)
      (has_callback : Bool) (evicted : List (K × V))
      → Absent k xs
      → lay (xs ++ (k, v) ∷ ys) size max_size has_callback evicted
        ≡ opened xs k v ys size max_size has_callback evicted
  lay-opened xs k v ys size max_size has_callback evicted a =
      ap
        (λ (f : K → Option (Bucket K V)).
          record (lay (xs ++ (k, v) ∷ ys) size max_size has_callback evicted) {
            buckets = record { find = f; count = length (xs ++ (k, v) ∷ ys) };
          })
        (fun_ext (λ j. seg-around dec k v xs ys j a))

length-middle {ℓ} :
    {A : Type ℓ} (xs : List A) (e : A) (ys : List A) → length (xs ++ e ∷ ys) - 1 ≡ length (xs ++ ys)
length-middle xs e ys = omega (arith, length-append xs (e ∷ ys), length-append xs ys)

module _ {ℓ} {K V : Type ℓ} (dec : Discrete K) (cost : V → ℕ) (xs : List (K × V)) (k : K) (v : V)
    (ys : List (K × V)) (size max_size : ℕ) (has_callback : Bool) (evicted : List (K × V))
    (m : Middle xs k ys) where
  -- The last bucket's key is set, then the first one's.
  behind : LruCache K V
  behind = record (opened dec xs k v ys size max_size has_callback evicted) {
    buckets = record {
      find = around dec k (bucket dec xs v ys) none xs (some k) (last_or none xs) ys;
      count = length (xs ++ (k, v) ∷ ys);
    };
    last = last_or (last_or none xs) ys;
  }

  before : LruCache K V
  unfolding behind
  before = record behind {
    buckets = record {
      find = around dec k (bucket dec xs v ys) none xs (head_or ys none) (last_or none xs) ys;
      count = length (xs ++ (k, v) ∷ ys);
    };
    first = head_or xs (head_or ys none);
  }

  -- The bucket itself leaves the map.
  pub erase_at-lay :
      (callback : Bool)
      → erase_at dec cost
          (lay dec (xs ++ (k, v) ∷ ys) size max_size has_callback evicted)
          k
          callback
        ≡ some (
            lay dec
              (xs ++ ys)
              ((size + u64_mod - cost v) % u64_mod)
              max_size
              has_callback
              (called (callback && has_callback) (k, v) evicted))
  unfolding erase_at before
  erase_at-lay callback =
      ap (λ (c : LruCache K V). erase_at dec cost c k callback)
        (lay-opened dec xs k v ys size max_size has_callback evicted m.before)
      ∙ bind_eq _ (around-at dec k (bucket dec xs v ys) none xs (some k) (some k) ys)
      ∙ bind_eq _ (
          relink_next_lem dec k (opened dec xs k v ys size max_size has_callback evicted)
            (bucket dec xs v ys) xs (some k) (some k) (last_or none xs) ys
            (length (xs ++ (k, v) ∷ ys)) m (last_or-append none xs ((k, v) ∷ ys)))
      ∙ bind_eq _ (
          relink_previous_lem dec k behind (bucket dec xs v ys) xs (head_or ys none)
            (last_or none xs) ys (length (xs ++ (k, v) ∷ ys)) m
            (head_or-append xs ((k, v) ∷ ys) none))
      ∙ (λ i. some (record {
        buckets = record {
          find = fun_ext (λ j. around-erase dec k (bucket dec xs v ys) xs ys j m.before m.behind) i;
          count = length-middle xs (k, v) ys i;
        };
        first = sym (head_or-append xs ys none) i;
        last = sym (last_or-append none xs ys) i;
        max_size = max_size;
        size = (size + u64_mod - cost v) % u64_mod;
        has_callback = has_callback;
        evicted = called (callback && has_callback) (k, v) evicted;
      }))
