-- ===== src/Geo/TileKey/LevelSet/Nearest.antt =====
-- GetNearestAvailableTileKeyLevel(): the loop over the distances finds a nearest level of the set.
use here_olp_edge_sdk_cpp.Prelude.{
  ℕ, zero, suc, ◌+◌, ◌-◌, ◌/◌, ◌%◌, ◌^◌, ◌≤◌, ◌<◌, ◌≡◌, ◌≢◌, sym, ◌∙◌, Bool, true, false, ◌&&◌,
  arith, ◌==◌, ==_iff, ==-ne, inl, inr, ltb, leb, Bool-cases, lt→ltb, le→leb, leb→le, not-leb→lt,
  some,
}
use mathlib.Core.Path.{subst}
use here_olp_edge_sdk_cpp.Geo.TileKey.LevelSet.{
  has_level, max_of, min_of, distance, min_level, max_level, nearest_from, nearest_within,
  get_min_tile_key_level, get_max_tile_key_level, get_nearest_available_tile_key_level,
}
use here_olp_edge_sdk_cpp.Geo.TileKey.LevelSet.Lowest.{
  within, both_true, min_level_lem, max_level_lem,
}

-- A level of the set.
abbrev pub HasLevel : ℕ → ℕ → Type 0
HasLevel levels j = levels / 2 ^ j % 2 ≡ 1

-- A level of the set to which no other is nearer from a level.
abbrev pub IsNearest : ℕ → ℕ → ℕ → Type 0
IsNearest levels level found =
    HasLevel levels found × ((j : ℕ) → HasLevel levels j → distance level found ≤ distance level j)

both_hold : (a b : Bool) → a ≡ true → b ≡ true → (a && b) ≡ true
both_hold a b p q = rw (p, q)

not_above :
    (levels level dist j : ℕ)
    → (ltb (level + dist) 32 && has_level levels (level + dist)) ≡ false
    → HasLevel levels j
    → j < 32
    → j ≢ level + dist
not_above levels level dist j h there inside e =
    let here : HasLevel levels (level + dist) = subst (HasLevel levels) e there in
    let found =
      both_hold (ltb (level + dist) 32) (has_level levels (level + dist))
        (lt→ltb (level + dist) 32 (omega (arith, e, inside)))
        ((==_iff (levels / 2 ^ (level + dist) % 2) 1).1 here) in
    let refused : false ≡ true = sym h ∙ found in cc

not_below :
    (levels level dist j : ℕ)
    → (leb dist level && has_level levels (level - dist)) ≡ false
    → HasLevel levels j
    → dist ≤ level
    → j ≢ level - dist
not_below levels level dist j h there inside e =
    let here : HasLevel levels (level - dist) = subst (HasLevel levels) e there in
    let found =
      both_hold (leb dist level) (has_level levels (level - dist)) (le→leb dist level inside)
        ((==_iff (levels / 2 ^ (level - dist) % 2) 1).1 here) in
    let refused : false ≡ true = sym h ∙ found in cc

nearest_from_lem :
    (rounds levels level dist low : ℕ)
    → levels < 2 ^ 32
    → HasLevel levels low
    → distance level low < dist + rounds
    → ((j : ℕ) → HasLevel levels j → dist ≤ distance level j)
    → IsNearest levels level (nearest_from rounds levels level dist)
unfolding nearest_from
nearest_from_lem zero levels level dist low fits there near none_before =
    absurd (omega (arith, near, none_before low there))
nearest_from_lem (suc rounds) levels level dist low fits there near none_before =
    elim (Bool-cases (ltb (level + dist) 32 && has_level levels (level + dist))) [
      | inl above ↦
          let (inside, set) =
            both_true (ltb (level + dist) 32) (has_level levels (level + dist)) above in
          rw above (
            (==_iff (levels / 2 ^ (level + dist) % 2) 1).0 set,
            λ j is_set. omega (arith, none_before j is_set),
          )
      | inr not_up ↦ elim (Bool-cases (leb dist level && has_level levels (level - dist))) [
        | inl below ↦
            let (inside, set) =
              both_true (leb dist level) (has_level levels (level - dist)) below in
            let down : dist ≤ level = leb→le dist level inside in
            rw (not_up, below)
              (
                (==_iff (levels / 2 ^ (level - dist) % 2) 1).0 set,
                λ j is_set. omega (arith, none_before j is_set, down),
              )
        | inr not_down ↦
            rw (not_up, not_down)
              (nearest_from_lem rounds levels level (dist + 1) low fits there (omega (arith, near))
                (λ j is_set.
                  further j is_set (none_before j is_set)
                    (not_above levels level dist j not_up is_set (within levels j 32 fits is_set))
                    (not_below levels level dist j not_down is_set)))
      ]
    ]
  where
    further :
        (j : ℕ)
        → HasLevel levels j
        → dist ≤ distance level j
        → j ≢ level + dist
        → (dist ≤ level → j ≢ level - dist)
        → dist + 1 ≤ distance level j
    further j is_set least up down = elim (Bool-cases (leb dist level)) [
      | inl inside ↦ omega (arith, least, up, down (leb→le dist level inside))
      | inr outside ↦ omega (arith, least, up, not-leb→lt dist level outside)
    ]

clamped : ℕ → ℕ → ℕ → ℕ
clamped reference low high = max_of (min_of reference high) low

-- What is nearest to the level that the reference is moved to is nearest to the reference.
nearest_moved :
    (reference low high found j : ℕ)
    → low ≤ high
    → low ≤ j
    → j ≤ high
    → low ≤ found
    → found ≤ high
    → distance (clamped reference low high) found ≤ distance (clamped reference low high) low
    → distance (clamped reference low high) found ≤ distance (clamped reference low high) high
    → distance (clamped reference low high) found ≤ distance (clamped reference low high) j
    → distance reference found ≤ distance reference j
unfolding clamped
nearest_moved reference low high found j a b c d e f g h = ground arith

near_enough :
    (level low high : ℕ)
    → distance level low < 0 + (max_of (distance level low) (distance level high) + 1)
near_enough level low high = ground arith

nearest_within_lem :
    (levels reference low high : ℕ)
    → levels < 2 ^ 32
    → HasLevel levels low
    → HasLevel levels high
    → ((j : ℕ) → HasLevel levels j → low ≤ j)
    → ((j : ℕ) → HasLevel levels j → j ≤ high)
    → IsNearest levels reference (nearest_within levels reference low high)
unfolding nearest_within clamped
nearest_within_lem levels reference low high fits has_low has_high least most =
    let level : ℕ = clamped reference low high in
    let (is_set, nearer) =
      nearest_from_lem (max_of (distance level low) (distance level high) + 1) levels level 0 low
        fits has_low (near_enough level low high) (λ j has_j. omega arith) in
    (
      is_set,
      λ j has_j.
          nearest_moved reference low high (nearest_within levels reference low high) j
            (least high has_high) (least j has_j) (most j has_j) (least _ is_set) (most _ is_set)
            (nearer low has_low) (nearer high has_high) (nearer j has_j),
    )

-- For a set of levels that is not empty, GetNearestAvailableTileKeyLevel() gives a level of the set,
-- and no level of the set is nearer to the reference level.
pub get_nearest_available_tile_key_level-IsNearest :
    (levels reference_level : ℕ)
    → 0 < levels
    → levels < 2 ^ 32
    → (found : ℕ) × (get_nearest_available_tile_key_level levels reference_level ≡ some found)
      × IsNearest levels reference_level found
unfolding get_nearest_available_tile_key_level get_min_tile_key_level get_max_tile_key_level
get_nearest_available_tile_key_level-IsNearest levels reference_level positive fits =
    let (has_low, least) = min_level_lem levels positive fits in
    let (has_high, most) = max_level_lem levels positive fits in
    let some_level : (levels == 0) ≡ false = ==-ne levels 0 (λ e. omega (arith, positive, e)) in
    (
      nearest_within levels reference_level (min_level levels) (max_level levels),
      rw some_level,
      nearest_within_lem levels reference_level (min_level levels) (max_level levels) fits has_low
          has_high least most,
    )
