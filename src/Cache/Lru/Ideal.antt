-- ===== src/Cache/Lru/Ideal.antt =====
-- What a cache of the class LruCache promises: a list of entries, the most recently used first, of
-- which as many are kept as fit the maximum size.
use here_olp_edge_sdk_cpp.Prelude.{
  ℕ, ◌+◌, ◌-◌, ◌^◌, ◌≤◌, ◌<◌, ◌≡◌, refl, ap, ◌∙◌, Bool, true, false, Option, none, some, List, [],
  ◌∷◌, ◌++◌, arith, ltb, leb, if◌then◌else◌, Bool-cases, lt→not-leb, leb→le, inl, inr,
}
use here_olp_edge_sdk_cpp.Cache.Lru.Chain.{Absent, Distinct}
use mathlib.Core.Logic.{ite, if_pos, if_neg}

pub record Ideal {ℓ} (K V : Type ℓ) : Type ℓ where
  pub entries : List (K × V)
  pub max_size : ℕ
  pub has_callback : Bool
  pub evicted : List (K × V)

module _ {ℓ} {K V : Type ℓ} (cost : V → ℕ) where
  abbrev pub total : List (K × V) → ℕ
  total [] = 0
  total (e ∷ es) = cost e.1 + total es

  -- The longest beginning that fits, and the entries after it.
  abbrev pub fitting : ℕ → List (K × V) → List (K × V)
  fitting budget [] = []
  fitting budget (e ∷ es) = if leb (cost e.1) budget then e ∷ fitting (budget - cost e.1) es else []

  abbrev pub excess : ℕ → List (K × V) → List (K × V)
  excess budget [] = []
  excess budget (e ∷ es) = if leb (cost e.1) budget then excess (budget - cost e.1) es else e ∷ es

  abbrev pub trim : Ideal K V → Ideal K V
  trim s = record s {
    entries = fitting s.max_size s.entries;
    evicted = if s.has_callback then excess s.max_size s.entries ++ s.evicted else s.evicted;
  }

  pub total-append : (xs ys : List (K × V)) → total (xs ++ ys) ≡ total xs + total ys
  total-append [] ys = omega arith
  total-append (e ∷ xs) ys = omega (arith, total-append xs ys)

  pub total-fitting-le : (budget : ℕ) (es : List (K × V)) → total (fitting budget es) ≤ budget
  total-fitting-le budget [] = omega arith
  total-fitting-le budget (e ∷ es) = ground (arith, total-fitting-le (budget - cost e.1) es)

  pub fitting_all :
      (budget : ℕ) (es : List (K × V))
      → total es ≤ budget
      → (fitting budget es ≡ es) × (excess budget es ≡ [])
  fitting_all budget [] h = (refl, refl)
  fitting_all budget (e ∷ es) h = ground (arith, fitting_all (budget - cost e.1) es)

  -- The last entry goes first.
  pub fitting-snoc :
      (budget : ℕ) (es : List (K × V)) (e : K × V)
      → budget < total (es ++ e ∷ [])
      → (fitting budget (es ++ e ∷ []) ≡ fitting budget es)
        × (excess budget (es ++ e ∷ []) ≡ excess budget es ++ e ∷ [])
  fitting-snoc budget [] e h =
      let no_room : leb (cost e.1) budget ≡ false = lt→not-leb budget (cost e.1) (omega arith) in
      (rw no_room, rw no_room)
  fitting-snoc budget (f ∷ es) e h = elim (Bool-cases (leb (cost f.1) budget)) [
    | inl room ↦
        let (kept, dropped) =
          fitting-snoc (budget - cost f.1) es e (omega (arith, leb→le (cost f.1) budget room)) in
        (rw room (ap (◌∷◌ f) kept), rw room dropped)
    | inr full ↦ (rw full, rw full)
  ]

  fitting-excess : (budget : ℕ) (es : List (K × V)) → fitting budget es ++ excess budget es ≡ es
  fitting-excess budget [] = refl
  fitting-excess budget (e ∷ es) = ground (arith, fitting-excess (budget - cost e.1) es)

  fitting-Absent :
      (k : K) (budget : ℕ) (es : List (K × V)) → Absent k es → Absent k (fitting budget es)
  fitting-Absent k budget [] a = tt
  fitting-Absent k budget (e ∷ es) a = ground (arith, fitting-Absent k (budget - cost e.1) es)

  pub fitting-Distinct :
      (budget : ℕ) (es : List (K × V)) → Distinct es → Distinct (fitting budget es)
  fitting-Distinct budget [] d = tt
  fitting-Distinct budget (e ∷ es) d =
      ground
        (arith, fitting-Distinct (budget - cost e.1) es, fitting-Absent e.0 (budget - cost e.1) es)

module _ {ℓ} {K V : Type ℓ} (dec : Discrete K) where
  abbrev pub lookup : K → List (K × V) → Option V
  lookup k [] = none
  lookup k (e ∷ es) = ite (dec e.0 k) (some e.1) (lookup k es)

  abbrev pub remove : K → List (K × V) → List (K × V)
  remove k [] = []
  remove k (e ∷ es) = ite (dec e.0 k) es (e ∷ remove k es)

  pub Absent_of_none : (k : K) (es : List (K × V)) → lookup k es ≡ none → Absent k es
  Absent_of_none k [] h = tt
  Absent_of_none k (e ∷ es) h = ground (arith, Absent_of_none k es)

  -- An entry that is found splits the list.
  pub lookup_split :
      (k : K) (v : V) (es : List (K × V))
      → lookup k es ≡ some v
      → (xs : List (K × V)) × (ys : List (K × V)) × (es ≡ xs ++ (k, v) ∷ ys)
        × (remove k es ≡ xs ++ ys)
  lookup_split k v [] h = cc
  lookup_split k v (e ∷ es) h = elim (dec e.0 k) [
    | yes p ↦ ([], es, ground arith, if_pos (dec e.0 k) p es (e ∷ remove k es))
    | no p ↦
        let (xs, ys, q, r) = lookup_split k v es (ground arith) in
        (e ∷ xs, ys, ap (◌∷◌ e) q, if_neg (dec e.0 k) p es (e ∷ remove k es) ∙ ap (◌∷◌ e) r)
  ]

module _ {ℓ} {K V : Type ℓ} (cost : V → ℕ) where
  -- What holds between the calls.
  pub record IsKept (s : Ideal K V) : Type ℓ where
    pub distinct : Distinct s.entries
    pub within : total cost s.entries ≤ s.max_size
    pub machine : s.max_size < 2 ^ 63

module _ {ℓ} {K V : Type ℓ} where
  abbrev pub ideal_clear : Ideal K V → Ideal K V
  ideal_clear s = record s { entries = [] }

module _ {ℓ} {K V : Type ℓ} (dec : Discrete K) (cost : V → ℕ) where
  -- Another value for an entry, which comes to the front.
  abbrev pub touched_at : Ideal K V → K → V → Ideal K V
  touched_at s k v = record s { entries = (k, v) ∷ remove dec k s.entries }

  abbrev pub assigned_at : Ideal K V → K → V → Ideal K V
  assigned_at s k v = trim cost (touched_at s k v)

  abbrev pub added_at : Ideal K V → K → V → Ideal K V
  added_at s k v = trim cost (record s { entries = (k, v) ∷ s.entries })

  abbrev pub erased_at : Ideal K V → K → Ideal K V
  erased_at s k = record s { entries = remove dec k s.entries }

  -- The answers, by what is known of the key.
  abbrev pub found_answer : Ideal K V → K → Option V → Ideal K V × Option K
  found_answer s k none = (s, none)
  found_answer s k (some v) = (touched_at s k v, some k)

  abbrev pub erase_answer : Ideal K V → K → Option V → Ideal K V × Bool
  erase_answer s k none = (s, false)
  erase_answer s k (some v) = (erased_at s k, true)

  abbrev pub insert_answer : Ideal K V → K → V → Option V → Ideal K V × (Option K × Bool)
  insert_answer s k v none = (added_at s k v, (some k, true))
  insert_answer s k v (some w) = (touched_at s k w, (some k, false))

  abbrev pub assign_answer : Ideal K V → K → V → Option V → Ideal K V × (Option K × Bool)
  assign_answer s k v none =
      if ltb s.max_size (cost v) then (s, (none, false)) else (added_at s k v, (some k, true))
  assign_answer s k v (some w) = (assigned_at s k v, (some k, false))

  unfoldable pub ideal_find : Ideal K V → K → Ideal K V × Option K
  ideal_find s k = found_answer s k (lookup dec k s.entries)

  unfoldable pub ideal_erase : Ideal K V → K → Ideal K V × Bool
  ideal_erase s k = erase_answer s k (lookup dec k s.entries)

  unfoldable pub ideal_insert : Ideal K V → K → V → Ideal K V × (Option K × Bool)
  ideal_insert s k v =
      if ltb s.max_size (cost v)
      then (s, (none, false))
      else insert_answer s k v (lookup dec k s.entries)

  unfoldable pub ideal_insert_or_assign : Ideal K V → K → V → Ideal K V × (Option K × Bool)
  ideal_insert_or_assign s k v = assign_answer s k v (lookup dec k s.entries)

  unfoldable pub ideal_resize : Ideal K V → ℕ → Ideal K V
  ideal_resize s max_size = trim cost (record s { max_size = max_size })
