-- ===== src/Cache/Lru/Lists.antt =====
-- Lists of entries with distinct keys: parts, heads and ends.
use here_olp_edge_sdk_cpp.Prelude.{
  ◌≡◌, refl, sym, ap, ◌⊎◌, inl, inr, Option, some, List, [], ◌∷◌, ◌++◌,
}
use here_olp_edge_sdk_cpp.Cache.Lru.Chain.{
  head_or, last_or, Absent, Distinct, Absent-append, append-Absent,
}

module _ {ℓ} {K V : Type ℓ} where
  -- No key of the first list is in the second.
  abbrev pub Apart : List (K × V) → List (K × V) → Type ℓ
  Apart [] ys = Unit
  Apart (e ∷ xs) ys = Absent e.0 ys × Apart xs ys

  pub Distinct-append :
      (xs ys : List (K × V)) → Distinct (xs ++ ys) → Distinct xs × Distinct ys × Apart xs ys
  Distinct-append [] ys d = (tt, d, tt)
  Distinct-append (e ∷ xs) ys d =
      let (a, b) = Absent-append e.0 xs ys d.0 in
      let (dx, dy, ap) = Distinct-append xs ys d.1 in ((a, dx), dy, (b, ap))

  append-Distinct :
      (xs ys : List (K × V)) → Distinct xs → Distinct ys → Apart xs ys → Distinct (xs ++ ys)
  append-Distinct [] ys dx dy a = dy
  append-Distinct (e ∷ xs) ys dx dy a =
      (append-Absent e.0 xs ys dx.0 a.0, append-Distinct xs ys dx.1 dy a.1)

  pub Apart-head :
      (xs : List (K × V)) (e : K × V) (ys : List (K × V)) → Apart xs (e ∷ ys) → Absent e.0 xs
  Apart-head [] e ys a = tt
  Apart-head (f ∷ xs) e ys a = (λ p. a.0.0 (sym p), Apart-head xs e ys a.1)

  Apart-tail : (xs : List (K × V)) (e : K × V) (ys : List (K × V)) → Apart xs (e ∷ ys) → Apart xs ys
  Apart-tail [] e ys a = tt
  Apart-tail (f ∷ xs) e ys a = (a.0.1, Apart-tail xs e ys a.1)

  -- What the neighbours of an entry need.
  pub record Middle (xs : List (K × V)) (k : K) (ys : List (K × V)) : Type ℓ where
    pub before : Absent k xs
    pub behind : Absent k ys
    pub apart : Apart xs ys
    pub left : Distinct xs
    pub right : Distinct ys

  pub Distinct-Middle :
      (xs : List (K × V)) (e : K × V) (ys : List (K × V))
      → Distinct (xs ++ e ∷ ys)
      → Middle xs e.0 ys
  Distinct-Middle xs e ys d =
      let (dx, dy, a) = Distinct-append xs (e ∷ ys) d in
      record {
        before = Apart-head xs e ys a;
        behind = dy.0;
        apart = Apart-tail xs e ys a;
        left = dx;
        right = dy.1;
      }

  pub Middle-Distinct :
      (xs : List (K × V)) (k : K) (ys : List (K × V)) → Middle xs k ys → Distinct (xs ++ ys)
  Middle-Distinct xs k ys m = append-Distinct xs ys m.left m.right m.apart

  pub last_or-append :
      (p : Option K) (xs ys : List (K × V)) → last_or p (xs ++ ys) ≡ last_or (last_or p xs) ys
  last_or-append p [] ys = refl
  last_or-append p (e ∷ xs) ys = last_or-append (some e.0) xs ys

  pub head_or-append :
      (xs ys : List (K × V)) (n : Option K) → head_or (xs ++ ys) n ≡ head_or xs (head_or ys n)
  head_or-append [] ys n = refl
  head_or-append (e ∷ xs) ys n = refl

  -- A list is empty or has a last entry.
  pub snoc_cases :
      (xs : List (K × V)) → (xs ≡ []) ⊎ ((ys : List (K × V)) × (e : K × V) × (xs ≡ ys ++ e ∷ []))
  snoc_cases [] = inl refl
  snoc_cases (e ∷ xs) = elim (snoc_cases xs) [
    | inl p ↦ inr ([], e, ap (◌∷◌ e) p)
    | inr (ys, f, p) ↦ inr (e ∷ ys, f, ap (◌∷◌ e) p)
  ]
