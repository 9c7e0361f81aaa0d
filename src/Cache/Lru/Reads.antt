-- ===== src/Cache/Lru/Reads.antt =====
-- What is read from a cache: the values of keys, and the entries in their order.
use here_olp_edge_sdk_cpp.Prelude.{
  ◌>>=◌, bind_eq, ℕ, zero, suc, ◌-◌, ◌≤◌, ◌<◌, ◌≡◌, refl, sym, ap, ◌∙◌, Option, none, some, List,
  [], ◌∷◌, ◌++◌, map, arith, length, inl, inr, Option-cases, le→leb, le→not-ltb,
}
use here_olp_edge_sdk_cpp.Cache.Lru.{
  LruCache, insert_or_assign, find_or, find_no_promote, begin, advance,
}
use here_olp_edge_sdk_cpp.Cache.Lru.Chain.{Distinct, seg, head_or}
use here_olp_edge_sdk_cpp.Cache.Lru.Lists.{Distinct-Middle}
use here_olp_edge_sdk_cpp.Cache.Lru.Layout.{bucket}
use here_olp_edge_sdk_cpp.Cache.Lru.Ideal.{
  Ideal, IsKept, fitting, lookup, remove, touched_at, ideal_find, ideal_insert_or_assign,
  assign_answer,
}
use here_olp_edge_sdk_cpp.Cache.Lru.Evict.{find-entry}
use here_olp_edge_sdk_cpp.Cache.Lru.Refine.{laid, find-laid, insert_or_assign-laid, found, missing}
use here_olp_edge_sdk_cpp.Cache.Lru.Kept.{ideal_insert_or_assign-IsKept}
use mathlib.Core.Logic.{if_pos}
use mathlib.Core.List.{append_assoc}
use mathlib.Core.Path.{subst}

module _ {ℓ} {K V : Type ℓ} (dec : Discrete K) (cost : V → ℕ) where
  abbrev pub or_value : Option V → V → V
  or_value none null_value = null_value
  or_value (some v) null_value = v

  pub front :
      (s : Ideal K V) (k : K) (v : V)
      → seg dec none (touched_at dec cost s k v).entries none k
        ≡ some (bucket dec [] v (remove dec k s.entries))
  front s k v = find-entry dec cost [] k v (remove dec k s.entries) tt

  find_or-laid :
      (s : Ideal K V) (k : K) (null_value : V)
      → IsKept cost s
      → find_or dec cost (laid dec cost s) k null_value
        ≡ some (
          laid dec cost (ideal_find dec cost s k).0,
          or_value (lookup dec k s.entries) null_value,
        )
  unfolding find_or ideal_find
  find_or-laid s k null_value kept = elim (Option-cases (lookup dec k s.entries)) [
    | inl e ↦ rw (find-laid dec cost s k kept, ideal_find, e)
    | inr (v, e) ↦ rw (find-laid dec cost s k kept, ideal_find, e, front s k v)
  ]

  lookup_self : (k : K) (v : V) (es : List (K × V)) → lookup dec k ((k, v) ∷ es) ≡ some v
  lookup_self k v es = if_pos (dec k k) refl (some v) (lookup dec k es)

  lookup-fitting :
      (n : ℕ) (k : K) (v : V) (es : List (K × V))
      → cost v ≤ n
      → lookup dec k (fitting cost n ((k, v) ∷ es)) ≡ some v
  lookup-fitting n k v es h =
      rw (le→leb (cost v) n h) (lookup_self k v (fitting cost (n - cost v) es))

  -- An entry that fits stays in front.
  assigned-front :
      (s : Ideal K V) (k : K) (v : V)
      → cost v ≤ s.max_size
      → lookup dec k (ideal_insert_or_assign dec cost s k v).0.entries ≡ some v
  unfolding ideal_insert_or_assign
  assigned-front s k v fits = elim (Option-cases (lookup dec k s.entries)) [
    | inl e ↦
        rw (e, assign_answer, le→not-ltb (cost v) s.max_size fits)
          (lookup-fitting s.max_size k v s.entries fits)
    | inr (w, e) ↦ rw e (lookup-fitting s.max_size k v (remove dec k s.entries) fits)
  ]

  -- The value of an InsertOrAssign() into a kept cache, if its cost does not exceed the maximum size, is
  -- what the next Find(key, nullValue) of the key gives.
  find_or-insert_or_assign :
      (s : Ideal K V) (k : K) (v null_value : V)
      → IsKept cost s
      → cost v ≤ s.max_size
      → (do
        (c, _) ← insert_or_assign dec cost (laid dec cost s) k v
        (_, found) ← find_or dec cost c k null_value
        some found)
        ≡ some v
  find_or-insert_or_assign s k v null_value kept fits =
      bind_eq _ (insert_or_assign-laid dec cost s k v kept (omega (arith, kept.machine)))
      ∙ bind_eq _ (
          find_or-laid (ideal_insert_or_assign dec cost s k v).0 k null_value
            (ideal_insert_or_assign-IsKept dec cost s k v kept))
      ∙ ap (λ o. some (or_value o null_value)) (assigned-front s k v fits)

  -- FindNoPromote() knows the keys of the entries and no others.
  find_no_promote-laid :
      (s : Ideal K V) (k : K)
      → IsKept cost s
      → find_no_promote dec cost (laid dec cost s) k ≡ (ideal_find dec cost s k).1
  unfolding find_no_promote ideal_find
  find_no_promote-laid s k kept = elim (Option-cases (lookup dec k s.entries)) [
    | inl e ↦ rw (missing dec cost k s.entries e, e, find_no_promote, ideal_find)
    | inr (v, e) ↦
        rw ((found dec cost k v s.entries kept.distinct e).at, e, find_no_promote, ideal_find)
  ]

  -- The keys from an iterator to end(), on fuel.
  unfoldable pub walk : ℕ → LruCache K V → Option K → Option (List K)
  walk zero c it = none
  walk (suc fuel) c none = some []
  walk (suc fuel) c (some k) = do next ← advance c (some k); ks ← walk fuel c next; some (k ∷ ks)

  walk_from :
      (s : Ideal K V) (xs ys : List (K × V)) (fuel : ℕ)
      → IsKept cost s
      → s.entries ≡ xs ++ ys
      → length ys < fuel
      → walk fuel (laid dec cost s) (head_or ys none) ≡ some (map (λ e. e.0) ys)
  unfolding walk advance
  walk_from s xs ys zero kept p h = elim h [ ]
  walk_from s xs [] (suc fuel) kept p h = refl
  walk_from s xs (e ∷ ys) (suc fuel) kept p h =
      bind_eq _ (bind_eq (λ b. some b.next) at)
      ∙ bind_eq _ (
          walk_from s (xs ++ e ∷ []) ys fuel kept (p ∙ sym (append_assoc xs (e ∷ []) ys))
            (omega arith))
    where
      at : seg dec none s.entries none e.0 ≡ some (bucket dec xs e.1 ys)
      at =
          ap (λ (l : List (K × V)). seg dec none l none e.0) p
          ∙ find-entry dec cost xs e.0 e.1 ys
              (Distinct-Middle xs e ys (subst Distinct p kept.distinct)).before

  -- In a cache that is laid out from kept entries, the iterators from begin() to end() are the keys from
  -- the most to the least recently used one.
  walk-begin :
      (s : Ideal K V)
      → IsKept cost s
      → walk (suc (length s.entries)) (laid dec cost s) (begin (laid dec cost s))
        ≡ some (map (λ e. e.0) s.entries)
  unfolding begin
  walk-begin s kept = walk_from s [] s.entries (suc (length s.entries)) kept refl (omega arith)
