-- ===== src/Cache/Lru/Refine.antt =====
-- The operations of the class LruCache do what the list of entries promises.
use here_olp_edge_sdk_cpp.Prelude.{
  ◌>>=◌, bind_eq, bind_assoc, ℕ, ◌+◌, ◌-◌, ◌%◌, ◌^◌, ◌<◌, ◌≡◌, refl, sym, ap, ◌∙◌, inl, inr, Bool,
  false, Option, none, some, List, [], ◌∷◌, ◌++◌, arith, u64_mod, ltb, Option-cases, Bool-cases,
}
use here_olp_edge_sdk_cpp.Cache.Lru.{
  LruCache, empty, clear, erase_at, erase, resize, insert, insert_or_assign, find, promote,
  set_value, add_again,
}
use here_olp_edge_sdk_cpp.Cache.Lru.Chain.{Distinct, seg, seg_absent}
use here_olp_edge_sdk_cpp.Cache.Lru.Lists.{Middle, Distinct-Middle}
use here_olp_edge_sdk_cpp.Cache.Lru.Layout.{lay, bucket, erase_at-lay}
use here_olp_edge_sdk_cpp.Cache.Lru.Promote.{promote-lay}
use here_olp_edge_sdk_cpp.Cache.Lru.Add.{add_new-lay, add_again-lay}
use here_olp_edge_sdk_cpp.Cache.Lru.Ideal.{
  Ideal, total, total-append, lookup, remove, Absent_of_none, lookup_split, touched_at, ideal_find,
  ideal_insert, ideal_insert_or_assign, ideal_erase, ideal_resize, ideal_clear, assign_answer,
  erased_at, assigned_at, IsKept,
}
use here_olp_edge_sdk_cpp.Cache.Lru.Evict.{find-entry, trimmed, evict-lay}
use mathlib.Core.Path.{subst}

module _ {ℓ} {K V : Type ℓ} (dec : Discrete K) (cost : V → ℕ) where
  -- The cache of the entries.
  abbrev pub laid : Ideal K V → LruCache K V
  laid s = lay dec s.entries (total cost s.entries) s.max_size s.has_callback s.evicted

  abbrev pub answered {κ} : {B : Type κ} → Ideal K V × B → Option (LruCache K V × B)
  answered (s, b) = some (laid s, b)

  -- What is known where a key is found.
  pub record Found (es : List (K × V)) (k : K) (v : V) : Type ℓ where
    pub xs : List (K × V)
    pub ys : List (K × V)
    pub looked : lookup dec k es ≡ some v
    pub split : es ≡ xs ++ (k, v) ∷ ys
    pub rest : remove dec k es ≡ xs ++ ys
    pub middle : Middle xs k ys
    pub at : seg dec none es none k ≡ some (bucket dec xs v ys)

  pub found :
      (k : K) (v : V) (es : List (K × V)) → Distinct es → lookup dec k es ≡ some v → Found es k v
  found k v es d h =
      let (xs, ys, p, r) = lookup_split dec k v es h in
      let m : Middle xs k ys = Distinct-Middle xs (k, v) ys (subst Distinct p d) in
      record {
        xs = xs;
        ys = ys;
        looked = h;
        split = p;
        rest = r;
        middle = m;
        at =
            ap (λ (l : List (K × V)). seg dec none l none k) p
            ∙ find-entry dec cost xs k v ys m.before;
      }

  pub missing : (k : K) (es : List (K × V)) → lookup dec k es ≡ none → seg dec none es none k ≡ none
  missing k es h = seg_absent dec none es none k (Absent_of_none dec k es h)

  total-split :
      {es : List (K × V)} {k : K} {v : V} (f : Found es k v)
      → total cost es ≡ cost v + total cost (remove dec k es)
  total-split {k = k} {v = v} f = omega (
    arith,
    ap (total cost) f.split,
    ap (total cost) f.rest,
    total-append cost f.xs ((k, v) ∷ f.ys),
    total-append cost f.xs f.ys,
  )

  module _ (s : Ideal K V) (k : K) (v : V) (f : Found s.entries k v) where
    promote-laid : promote dec (laid s) k ≡ some (laid (touched_at dec cost s k v))
    promote-laid =
        ap
          (λ (l : List (K × V)).
            promote dec (lay dec l (total cost s.entries) s.max_size s.has_callback s.evicted) k)
          f.split
        ∙ promote-lay dec f.xs k v f.ys (total cost s.entries) s.max_size s.has_callback s.evicted
            f.middle
        ∙ ap
            (λ (l : List (K × V)).
              some
                (lay dec ((k, v) ∷ l) (total cost s.entries) s.max_size s.has_callback s.evicted))
            (sym f.rest)
        ∙ ap
            (λ (n : ℕ).
              some
                (lay dec ((k, v) ∷ remove dec k s.entries) n s.max_size s.has_callback s.evicted))
            (total-split f)

    erase_at-laid :
        total cost s.entries < 2 ^ 64
        → erase_at dec cost (laid s) k false ≡ some (laid (erased_at dec cost s k))
    erase_at-laid h =
        ap
          (λ (l : List (K × V)).
            erase_at dec cost (lay dec l (total cost s.entries) s.max_size s.has_callback s.evicted)
              k false)
          f.split
        ∙ erase_at-lay dec cost f.xs k v f.ys (total cost s.entries) s.max_size s.has_callback
            s.evicted f.middle false
        ∙ ap
            (λ (l : List (K × V)). some (
              lay dec l ((total cost s.entries + u64_mod - cost v) % u64_mod) s.max_size
                s.has_callback s.evicted))
            (sym f.rest)
        ∙ ap
            (λ (n : ℕ).
              some (lay dec (remove dec k s.entries) n s.max_size s.has_callback s.evicted))
            (omega (arith, total-split f))

    assign-laid :
        (w : V)
        → total cost s.entries < 2 ^ 64
        → total cost s.entries + cost w < 2 ^ 64
        → (do
          m ← set_value dec (laid s).buckets k w
          add_again dec cost (record (laid s) { buckets = m }) k (cost w) (cost v))
          ≡ some (laid (assigned_at dec cost s k w))
    assign-laid w h h' =
        ap
          (λ (l : List (K × V)).
            set_value dec (lay dec l (total cost l) s.max_size s.has_callback s.evicted).buckets k w
            >>= λ m.
                add_again dec cost
                  (record (lay dec l (total cost l) s.max_size s.has_callback s.evicted) {
                    buckets = m;
                  })
                  k (cost w) (cost v))
          f.split
        ∙ add_again-lay dec cost k w s.max_size s.has_callback s.evicted f.xs v f.ys f.middle
            (omega (arith, ap (total cost) f.split))
            (omega (arith, ap (total cost) f.rest, total-split f))
        ∙ ap
            (λ (l : List (K × V)).
              some (trimmed dec cost ((k, w) ∷ l) s.max_size s.has_callback s.evicted))
            (sym f.rest)

  -- Find() of a cache that is laid out from kept entries: of a key that is there, it moves the entry to
  -- the front and gives its iterator; of another, it changes nothing and gives end().
  pub find-laid :
      (s : Ideal K V) (k : K)
      → IsKept cost s
      → find dec cost (laid s) k ≡ answered (ideal_find dec cost s k)
  unfolding find ideal_find
  find-laid s k kept = elim (Option-cases (lookup dec k s.entries)) [
    | inl e ↦ rw (missing k s.entries e, e, find, ideal_find)
    | inr (v, e) ↦
        let f = found k v s.entries kept.distinct e in
        rw (f.at, promote-laid s k v f, e, find, ideal_find)
  ]

  -- Erase(key) of a cache that is laid out from kept entries takes the key's entry out and is true; of a
  -- key that is not there, it changes nothing and is false. It calls no eviction callback.
  pub erase-laid :
      (s : Ideal K V) (k : K)
      → IsKept cost s
      → erase dec cost (laid s) k ≡ answered (ideal_erase dec cost s k)
  unfolding erase ideal_erase
  erase-laid s k kept = elim (Option-cases (lookup dec k s.entries)) [
    | inl e ↦ rw (missing k s.entries e, e, erase, ideal_erase)
    | inr (v, e) ↦
        let f = found k v s.entries kept.distinct e in
        rw (
          f.at,
          erase_at-laid s k v f (omega (arith, kept.within, kept.machine)),
          e,
          erase,
          ideal_erase,
        )
  ]

  -- Insert() into a cache that is laid out from kept entries, where the maximum size and the cost are
  -- together below 2 ^ 64: a value that exceeds the maximum size changes nothing; a new key comes to
  -- the front and the longest beginning of the entries that fits is kept, the callback being called
  -- with the others, the last one first; a key that is there moves to the front with its old value.
  pub insert-laid :
      (s : Ideal K V) (k : K) (v : V)
      → IsKept cost s
      → s.max_size + cost v < 2 ^ 64
      → insert dec cost (laid s) k v ≡ answered (ideal_insert dec cost s k v)
  unfolding insert ideal_insert
  insert-laid s k v kept h = elim (Bool-cases (ltb s.max_size (cost v))) [
    | inl big ↦ rw (big, insert, ideal_insert)
    | inr fits ↦ elim (Option-cases (lookup dec k s.entries)) [
      | inl e ↦
          let added =
            add_new-lay dec cost k v s.max_size s.has_callback s.evicted s.entries
              (Absent_of_none dec k s.entries e) kept.distinct (omega (arith, kept.within)) in
          rw (fits, missing k s.entries e, added, e, insert, ideal_insert)
      | inr (w, e) ↦
          let f = found k w s.entries kept.distinct e in
          rw (fits, f.at, promote-laid s k w f, e, insert, ideal_insert)
    ]
  ]

  -- InsertOrAssign() into a cache that is laid out from kept entries, where the maximum size and the
  -- cost are together below 2 ^ 64: a key that is there comes to the front with the new value, a new
  -- one comes to the front unless it exceeds the maximum size, and the longest beginning of the
  -- entries that fits is kept, the callback being called with the others, the last one first.
  pub insert_or_assign-laid :
      (s : Ideal K V) (k : K) (v : V)
      → IsKept cost s
      → s.max_size + cost v < 2 ^ 64
      → insert_or_assign dec cost (laid s) k v ≡ answered (ideal_insert_or_assign dec cost s k v)
  unfolding insert_or_assign ideal_insert_or_assign
  insert_or_assign-laid s k v kept h = elim (Option-cases (lookup dec k s.entries)) [
    | inl e ↦ elim (Bool-cases (ltb s.max_size (cost v))) [
      | inl big ↦
          rw
            (e, missing k s.entries e, insert_or_assign, ideal_insert_or_assign, assign_answer, big)
      | inr fits ↦
          let added =
            add_new-lay dec cost k v s.max_size s.has_callback s.evicted s.entries
              (Absent_of_none dec k s.entries e) kept.distinct (omega (arith, kept.within)) in
          rw (
            e,
            missing k s.entries e,
            insert_or_assign,
            ideal_insert_or_assign,
            assign_answer,
            fits,
            added,
          )
    ]
    | inr (w, e) ↦
        let f = found k w s.entries kept.distinct e in
        let assigned =
          assign-laid s k w f v (omega (arith, kept.within)) (omega (arith, kept.within)) in
        rw (e, f.at, insert_or_assign, ideal_insert_or_assign)
          (sym (
              bind_assoc (set_value dec (laid s).buckets k v)
                (λ m. add_again dec cost (record (laid s) { buckets = m }) k (cost v) (cost w))
                (λ c'. some (c', (some k, false))))
            ∙ bind_eq (λ c'. some (c', (some k, false))) assigned)
  ]

  -- Resize() of a cache that is laid out from kept entries keeps the longest beginning of them that fits
  -- the new size, the callback being called with the others, the last one first.
  pub resize-laid :
      (s : Ideal K V) (n : ℕ)
      → IsKept cost s
      → resize dec cost (laid s) n ≡ some (laid (ideal_resize dec cost s n))
  unfolding resize ideal_resize
  resize-laid s n kept =
      evict-lay dec cost s.entries n s.has_callback s.evicted
        (omega (arith, kept.within, kept.machine)) kept.distinct

  pub clear-laid : (s : Ideal K V) → clear (laid s) ≡ laid (ideal_clear s)
  unfolding clear seg
  clear-laid s = refl

  pub empty-laid :
      (n : ℕ) (has_callback : Bool)
      → empty n has_callback
        ≡ laid (record { entries = []; max_size = n; has_callback = has_callback; evicted = [] })
  unfolding empty seg
  empty-laid n has_callback = refl
