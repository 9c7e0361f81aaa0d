-- ===== src/Cache/Memory/Expiry.antt =====
-- InMemoryCache: what Get() gives of an item that may have expired.
use here_olp_edge_sdk_cpp.Prelude.{
  ℕ, ◌≡◌, refl, ◌∙◌, inl, inr, ltb, Bool-cases, Option-cases, if◌then◌else◌, Option, none, some,
  ◌>>=◌, bind_eq, List, [], ◌∷◌,
}
use here_olp_edge_sdk_cpp.Cache.Lru.Ideal.{
  Ideal, IsKept, lookup, touched_at, ideal_find, ideal_erase,
}
use here_olp_edge_sdk_cpp.Cache.Lru.Refine.{laid, find-laid, erase-laid}
use here_olp_edge_sdk_cpp.Cache.Lru.Kept.{ideal_erase-IsKept, touched-IsKept}
use here_olp_edge_sdk_cpp.Cache.Lru.Reads.{front}
use here_olp_edge_sdk_cpp.Cache.Memory.{
  Key, ItemTuple, expiring_at, erase_each, purge_at, get_found, get,
}

module _ {T : Type 0} (dec : Discrete Key) (cost : ItemTuple T → ℕ) where
  -- The item, unless it has expired.
  abbrev pub fresh : ℕ → Option (ItemTuple T) → Option T
  fresh now none = none
  fresh now (some tuple) = if ltb tuple.expiry now then none else some tuple.item

  erase_each-laid :
      (s : Ideal Key (ItemTuple T)) (ts : List (ItemTuple T))
      → IsKept cost s
      → (s' : Ideal Key (ItemTuple T)) × (erase_each dec cost (laid dec cost s) ts
          ≡ some (laid dec cost s'))
  unfolding erase_each
  erase_each-laid s [] kept = (s, refl)
  erase_each-laid s (t ∷ ts) kept =
      let (s', e) =
        erase_each-laid (ideal_erase dec cost s t.key).0 ts
          (ideal_erase-IsKept dec cost s t.key kept) in
      (s', bind_eq _ (erase-laid dec cost s t.key kept) ∙ e)

  get_found-fresh :
      (s : Ideal Key (ItemTuple T)) (m : List (ℕ × List (ItemTuple T))) (tuple : ItemTuple T)
      (now : ℕ)
      → IsKept cost s
      → (get_found dec cost (record { item_tuples = laid dec cost s; item_expiries = m }) tuple now
          >>= λ r. some r.1)
        ≡ some (fresh now (some tuple))
  unfolding purge_at
  get_found-fresh s m tuple now kept = elim (Bool-cases (ltb tuple.expiry now)) [
    | inl old ↦
        let (s', e) = erase_each-laid s (expiring_at tuple.expiry m) kept in rw (old, purge_at, e)
    | inr new ↦ rw new
  ]

  -- Get() of a cache whose items are laid out from kept entries comes to its end. It gives the item of
  -- the key if there is one and its expiry is not before the present time, and else nothing.
  pub get-fresh :
      (s : Ideal Key (ItemTuple T)) (m : List (ℕ × List (ItemTuple T))) (key : Key) (now : ℕ)
      → IsKept cost s
      → (get dec cost (record { item_tuples = laid dec cost s; item_expiries = m }) key now >>= λ r.
          some r.1)
        ≡ some (fresh now (lookup dec key s.entries))
  unfolding get ideal_find
  get-fresh s m key now kept = elim (Option-cases (lookup dec key s.entries)) [
    | inl e ↦ rw (find-laid dec cost s key kept, ideal_find, e)
    | inr (tuple, e) ↦
        let kept' : IsKept cost (touched_at dec cost s key tuple) =
          touched-IsKept dec cost s key tuple kept e in
        rw (find-laid dec cost s key kept, ideal_find, e, front dec cost s key tuple)
          (get_found-fresh (touched_at dec cost s key tuple) m tuple now kept')
  ]
