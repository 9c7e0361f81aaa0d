-- ===== src/Geo/SubTiles/Walk.antt =====
-- SubTiles: the loop sees the tiles that Skip() does not step over, in the order of their indices.
use here_olp_edge_sdk_cpp.Prelude.{
  ℕ, zero, suc, ◌+◌, ◌-◌, ◌≤◌, Bool, true, false, not, ◌||◌, inl, inr, Bool-cases, ◌⊎◌, ltb, lt→ltb,
  ◌==◌, ==-eq, ==-ne, if◌then◌else◌, List, [], ◌∷◌, ◌≡◌, ◌≢◌, refl, sym, ap, ◌∙◌, arith, eq_cases,
}
use mathlib.Core.Path.{subst}
use here_olp_edge_sdk_cpp.Geo.TileKey.{TileKey, tile_eq}
use here_olp_edge_sdk_cpp.Geo.TileKey.Levels.Ancestors.{tile_eq_iff}
use here_olp_edge_sdk_cpp.Geo.SubTiles.{
  SubTiles, full_mask, is_masked, skip_rounds, skip, begin, end, next, deref, walk, size,
  iterator_eq,
}

-- Skip() stops at the index.
abbrev pub is_shown : SubTiles → ℕ → Bool
is_shown s index = s.mask == full_mask || not (is_masked s index)

-- The tiles from an index on, `left` of them, without those that Skip() steps over.
abbrev pub shown_from : SubTiles → ℕ → ℕ → List TileKey
shown_from s zero index = []
shown_from s (suc left) index =
    let rest = shown_from s left (index + 1) in
    if is_shown s index then deref s index ∷ rest else rest

-- Where Skip() comes to from an index.
record Skipped (s : SubTiles) (index place : ℕ) : Type 0 where
  not_back : index ≤ place
  within : place ≤ s.count
  stands : (place ≡ s.count) ⊎ (is_shown s place ≡ true)
  same : shown_from s (s.count - index) index ≡ shown_from s (s.count - place) place

shown_hidden :
    (s : SubTiles) (left index : ℕ)
    → is_shown s index ≡ false
    → shown_from s (suc left) index ≡ shown_from s left (index + 1)
shown_hidden s left index h = rw h

shown_seen :
    (s : SubTiles) (left index : ℕ)
    → is_shown s index ≡ true
    → shown_from s (suc left) index ≡ deref s index ∷ shown_from s left (index + 1)
shown_seen s left index h = rw h

skip_rounds-Skipped :
    (rounds : ℕ) (s : SubTiles) (index : ℕ)
    → index + rounds ≡ s.count
    → (s.mask == full_mask) ≡ false
    → Skipped s index (skip_rounds rounds s index)
unfolding skip_rounds
skip_rounds-Skipped zero s index e some_mask = record {
  not_back = omega arith;
  within = omega (arith, e);
  stands = inl (omega (arith, e));
  same = refl;
}
skip_rounds-Skipped (suc rounds) s index e some_mask =
    let inside : ltb index s.count ≡ true = lt→ltb index s.count (omega (arith, e)) in
    let left : s.count - index ≡ suc (s.count - (index + 1)) = omega (arith, e) in
    elim (Bool-cases (is_masked s index)) [
      | inl masked ↦
          let k = skip_rounds-Skipped rounds s (index + 1) (omega (arith, e)) some_mask in
          let goes : skip_rounds (suc rounds) s index ≡ skip_rounds rounds s (index + 1) =
            rw (inside, masked) in
          let hidden : is_shown s index ≡ false = rw (some_mask, masked) in
          subst (λ (n : ℕ). Skipped s index n) (sym goes)
            (record {
              not_back = omega (arith, k.not_back);
              within = k.within;
              stands = k.stands;
              same =
                  ap (λ n. shown_from s n index) left
                  ∙ shown_hidden s (s.count - (index + 1)) index hidden
                  ∙ k.same;
            })
      | inr shown ↦
          let stays : skip_rounds (suc rounds) s index ≡ index = rw (inside, shown) in
          let seen : is_shown s index ≡ true = rw (some_mask, shown) in
          subst (λ (n : ℕ). Skipped s index n) (sym stays)
            (record {
              not_back = omega arith;
              within = omega (arith, e);
              stands = inr seen;
              same = refl;
            })
    ]

skip-Skipped : (s : SubTiles) (index : ℕ) → index ≤ s.count → Skipped s index (skip s index)
unfolding skip
skip-Skipped s index h = elim (Bool-cases (s.mask == full_mask)) [
  | inl full ↦
      let seen : is_shown s index ≡ true = rw full in
      let stays : skip s index ≡ index = rw full in
      subst (λ (n : ℕ). Skipped s index n) (sym stays)
        (record { not_back = omega arith; within = h; stands = inr seen; same = refl })
  | inr some_mask ↦
      let goes : skip s index ≡ skip_rounds (s.count - index) s index = rw some_mask in
      subst (λ (n : ℕ). Skipped s index n) (sym goes)
        (skip_rounds-Skipped (s.count - index) s index (omega (arith, h)) some_mask)
]

end-eq-count : (s : SubTiles) → end s ≡ s.count
unfolding end
end-eq-count s = let k = skip-Skipped s s.count (omega arith) in omega (arith, k.not_back, k.within)

if_yes : {A : Type 0} → {b : Bool} → (x y : A) → b ≡ true → (if b then x else y) ≡ x
if_yes x y h = rw h

if_no : {A : Type 0} → {b : Bool} → (x y : A) → b ≡ false → (if b then x else y) ≡ y
if_no x y h = rw h

shown_at :
    (s : SubTiles) (place : ℕ)
    → place ≢ s.count
    → (place ≡ s.count) ⊎ (is_shown s place ≡ true)
    → is_shown s place ≡ true
shown_at s place before (inl at_end) = absurd (before at_end)
shown_at s place before (inr seen) = seen

iterator_eq-end : (s : SubTiles) (place : ℕ) → place ≡ s.count → iterator_eq s place (end s) ≡ true
iterator_eq-end s place h =
    let same : tile_eq s.tile_key s.tile_key ≡ true = (tile_eq_iff s.tile_key s.tile_key).1 refl in
    let equal : (place == end s) ≡ true = ==-eq place (end s) (h ∙ sym (end-eq-count s)) in
    rw (same, equal)

iterator_eq_before :
    (s : SubTiles) (place : ℕ) → place ≢ s.count → iterator_eq s place (end s) ≡ false
iterator_eq_before s place h =
    let same : tile_eq s.tile_key s.tile_key ≡ true = (tile_eq_iff s.tile_key s.tile_key).1 refl in
    let differ : (place == end s) ≡ false = ==-ne place (end s) (λ e. h (e ∙ end-eq-count s)) in
    rw (same, differ)

-- The loop from where Skip() comes to.
walk-Skipped :
    (rounds : ℕ) (s : SubTiles) (index place : ℕ)
    → Skipped s index place
    → s.count - index ≤ rounds
    → walk rounds s place ≡ shown_from s (s.count - index) index
unfolding walk next
walk-Skipped zero s index place k h =
    let none_left : ◌≡◌ {A = ℕ} 0 (s.count - index) = omega (arith, h) in
    ap (λ n. shown_from s n index) none_left
walk-Skipped (suc rounds) s index place k h = elim (eq_cases place s.count) [
  | inl at_end ↦
      let stops : iterator_eq s place (end s) ≡ true = iterator_eq-end s place at_end in
      let none_left : ◌≡◌ {A = ℕ} 0 (s.count - place) = omega (arith, at_end) in
      if_yes _ _ stops ∙ ap (λ n. shown_from s n place) none_left ∙ sym k.same
  | inr before ↦
      let goes : iterator_eq s place (end s) ≡ false = iterator_eq_before s place before in
      let left : s.count - place ≡ suc (s.count - (place + 1)) = omega (arith, before, k.within) in
      let k2 = skip-Skipped s (place + 1) (omega (arith, before, k.within)) in
      let seen = shown_at s place before k.stands in
      let rest =
        walk-Skipped rounds s (place + 1) (skip s (place + 1)) k2
          (omega (arith, left, h, k.not_back)) in
      if_no _ _ goes
      ∙ ap (λ ts. deref s place ∷ ts) rest
      ∙ sym (shown_seen s (s.count - (place + 1)) place seen)
      ∙ sym (ap (λ n. shown_from s n place) left)
      ∙ sym k.same
]

-- The whole loop, for any mask; as many rounds as Size() says are enough.
pub walk-shown_from : (s : SubTiles) → walk (size s) s (begin s) ≡ shown_from s (size s) 0
unfolding begin size
walk-shown_from s =
    let whole : s.count - 0 ≡ s.count = omega arith in
    walk-Skipped s.count s 0 (skip s 0) (skip-Skipped s 0 (omega arith)) (omega arith)
    ∙ ap (λ n. shown_from s n 0) whole
