-- ===== src/Cache/Lru/Kept.antt =====
-- What the operations of a cache keep, and runs of calls.
use here_olp_edge_sdk_cpp.Prelude.{
  ℕ, ◌+◌, ◌^◌, ◌≤◌, ◌<◌, ◌≡◌, ap, inl, inr, none, some, List, [], ◌∷◌, arith, ltb, Option-cases,
  Bool-cases,
}
use here_olp_edge_sdk_cpp.Cache.Lru.Chain.{Absent, Distinct}
use here_olp_edge_sdk_cpp.Cache.Lru.Ideal.{
  Ideal, IsKept, total, total-append, total-fitting-le, fitting-Distinct, trim, lookup, remove,
  Absent_of_none, lookup_split, touched_at, added_at, assign_answer, ideal_find, ideal_insert,
  ideal_insert_or_assign, ideal_erase, ideal_resize, ideal_clear,
}

module _ {ℓ} {K V : Type ℓ} (dec : Discrete K) where
  remove-Absent_other : (j k : K) (es : List (K × V)) → Absent j es → Absent j (remove dec k es)
  remove-Absent_other j k [] a = tt
  remove-Absent_other j k (e ∷ es) a = ground (arith, remove-Absent_other j k es)

  remove-Absent : (k : K) (es : List (K × V)) → Distinct es → Absent k (remove dec k es)
  remove-Absent k [] d = tt
  remove-Absent k (e ∷ es) d = ground (arith, remove-Absent k es)

  remove-Distinct : (k : K) (es : List (K × V)) → Distinct es → Distinct (remove dec k es)
  remove-Distinct k [] d = tt
  remove-Distinct k (e ∷ es) d = ground (arith, remove-Distinct k es, remove-Absent_other e.0 k es)

module _ {ℓ} {K V : Type ℓ} (dec : Discrete K) (cost : V → ℕ) where
  total-remove-le : (k : K) (es : List (K × V)) → total cost (remove dec k es) ≤ total cost es
  total-remove-le k [] = omega arith
  total-remove-le k (e ∷ es) = ground (arith, total-remove-le k es)

  total-touched :
      (k : K) (v : V) (es : List (K × V))
      → lookup dec k es ≡ some v
      → cost v + total cost (remove dec k es) ≡ total cost es
  total-touched k v es h =
      let (xs, ys, p, r) = lookup_split dec k v es h in
      omega (
        arith,
        ap (total cost) p,
        ap (total cost) r,
        total-append cost xs ((k, v) ∷ ys),
        total-append cost xs ys,
      )

  trim-IsKept :
      (s : Ideal K V) → Distinct s.entries → s.max_size < 2 ^ 63 → IsKept cost (trim cost s)
  trim-IsKept s d h = record {
    distinct = fitting-Distinct cost s.max_size s.entries d;
    within = total-fitting-le cost s.max_size s.entries;
    machine = h;
  }

  pub touched-IsKept :
      (s : Ideal K V) (k : K) (v : V)
      → IsKept cost s
      → lookup dec k s.entries ≡ some v
      → IsKept cost (touched_at dec cost s k v)
  touched-IsKept s k v kept e = record {
    distinct = (
      remove-Absent dec k s.entries kept.distinct,
      remove-Distinct dec k s.entries kept.distinct,
    );
    within = omega (arith, kept.within, total-touched k v s.entries e);
    machine = kept.machine;
  }

  added-IsKept :
      (s : Ideal K V) (k : K) (v : V)
      → IsKept cost s
      → lookup dec k s.entries ≡ none
      → IsKept cost (added_at dec cost s k v)
  added-IsKept s k v kept e =
      trim-IsKept (record s { entries = (k, v) ∷ s.entries })
        (Absent_of_none dec k s.entries e, kept.distinct) kept.machine

  pub ideal_find-IsKept :
      (s : Ideal K V) (k : K) → IsKept cost s → IsKept cost (ideal_find dec cost s k).0
  unfolding ideal_find
  ideal_find-IsKept s k kept = elim (Option-cases (lookup dec k s.entries)) [
    | inl e ↦ rw e kept
    | inr (v, e) ↦ rw e (touched-IsKept s k v kept e)
  ]

  pub ideal_erase-IsKept :
      (s : Ideal K V) (k : K) → IsKept cost s → IsKept cost (ideal_erase dec cost s k).0
  unfolding ideal_erase
  ideal_erase-IsKept s k kept = elim (Option-cases (lookup dec k s.entries)) [
    | inl e ↦ rw e kept
    | inr (v, e) ↦ rw e (record {
      distinct = remove-Distinct dec k s.entries kept.distinct;
      within = omega (arith, kept.within, total-remove-le k s.entries);
      machine = kept.machine;
    })
  ]

  pub ideal_insert-IsKept :
      (s : Ideal K V) (k : K) (v : V) → IsKept cost s → IsKept cost (ideal_insert dec cost s k v).0
  unfolding ideal_insert
  ideal_insert-IsKept s k v kept = elim (Bool-cases (ltb s.max_size (cost v))) [
    | inl big ↦ rw (big, ideal_insert) kept
    | inr fits ↦ elim (Option-cases (lookup dec k s.entries)) [
      | inl e ↦ rw (fits, e, ideal_insert) (added-IsKept s k v kept e)
      | inr (w, e) ↦ rw (fits, e, ideal_insert) (touched-IsKept s k w kept e)
    ]
  ]

  pub ideal_insert_or_assign-IsKept :
      (s : Ideal K V) (k : K) (v : V)
      → IsKept cost s
      → IsKept cost (ideal_insert_or_assign dec cost s k v).0
  unfolding ideal_insert_or_assign
  ideal_insert_or_assign-IsKept s k v kept = elim (Option-cases (lookup dec k s.entries)) [
    | inl e ↦ elim (Bool-cases (ltb s.max_size (cost v))) [
      | inl big ↦ rw (e, assign_answer, big) kept
      | inr fits ↦ rw (e, assign_answer, fits) (added-IsKept s k v kept e)
    ]
    | inr (w, e) ↦ rw e (
        trim-IsKept (touched_at dec cost s k v)
          (
            remove-Absent dec k s.entries kept.distinct,
            remove-Distinct dec k s.entries kept.distinct,
          )
          kept.machine)
  ]

  pub ideal_resize-IsKept :
      (s : Ideal K V) (n : ℕ) → IsKept cost s → n < 2 ^ 63 → IsKept cost (ideal_resize dec cost s n)
  unfolding ideal_resize
  ideal_resize-IsKept s n kept h = trim-IsKept (record s { max_size = n }) kept.distinct h

  pub ideal_clear-IsKept : (s : Ideal K V) → IsKept cost s → IsKept cost (ideal_clear s)
  ideal_clear-IsKept s kept = record { distinct = tt; within = omega arith; machine = kept.machine }
