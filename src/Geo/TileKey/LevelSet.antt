-- ===== src/Geo/TileKey/LevelSet.antt =====
-- The sets of levels TileKeyLevels of olp-cpp-sdk-core/src/geo/tiling/TileKey.cpp, with
-- GetMinTileKeyLevel(), GetMaxTileKeyLevel() and GetNearestAvailableTileKeyLevel(). A
-- `std::bitset<32>` is the number of its bits; `unsigned long` has 64 bits. `std::log2` of a positive
-- number below 2 ^ 32, cut down to a whole number, is the place of its first binary digit.
pub mod Lowest
pub mod Nearest
use here_olp_edge_sdk_cpp.Prelude.{
  ℕ, zero, suc, ◌+◌, ◌-◌, ◌*◌, ◌/◌, ◌%◌, ◌^◌, Bool, ◌&&◌, ltb, leb, ◌==◌, if◌then◌else◌, Option,
  none, some, ◌>>=◌, List, [], ◌∷◌, get_or, bit_and,
}

-- `levels[i]`
abbrev pub has_level : ℕ → ℕ → Bool
has_level levels i = levels / 2 ^ i % 2 == 1

abbrev pub lookup_table : List ℕ
lookup_table =
    0 ∷ 1 ∷ 28 ∷ 2 ∷ 29 ∷ 14 ∷ 24 ∷ 3 ∷ 30 ∷ 22 ∷ 20 ∷ 15 ∷ 25 ∷ 17 ∷ 4 ∷ 8 ∷ 31 ∷ 27 ∷ 13 ∷ 23 ∷ 21
    ∷ 19 ∷ 16 ∷ 7 ∷ 26 ∷ 12 ∷ 18 ∷ 6 ∷ 11 ∷ 5 ∷ 10 ∷ 9 ∷ []

-- The place in the table of a number with one binary digit.
abbrev pub looked_up : ℕ → ℕ
looked_up digit = get_or lookup_table (digit * 0x077CB531 % 2 ^ 32 / 2 ^ 27) 0

unfoldable pub min_level : ℕ → ℕ
min_level level_bits = looked_up (bit_and level_bits ((2 ^ 64 - level_bits) % 2 ^ 64))

unfoldable pub get_min_tile_key_level : ℕ → Option ℕ
get_min_tile_key_level levels = if levels == 0 then none else some (min_level levels)

unfoldable pub log2_rounds : ℕ → ℕ → ℕ
log2_rounds zero n = 0
log2_rounds (suc rounds) n =
    let half = log2_rounds rounds (n / 2) in if ltb n 2 then 0 else half + 1

abbrev pub max_level : ℕ → ℕ
max_level levels = log2_rounds 32 levels

unfoldable pub get_max_tile_key_level : ℕ → Option ℕ
get_max_tile_key_level levels = if levels == 0 then none else some (max_level levels)

abbrev pub max_of : ℕ → ℕ → ℕ
max_of a b = if ltb a b then b else a

abbrev pub min_of : ℕ → ℕ → ℕ
min_of a b = if ltb b a then b else a

-- `abs(a - b)`
abbrev pub distance : ℕ → ℕ → ℕ
distance a b = (a - b) + (b - a)

-- The loop over the distances, `rounds` of them left.
unfoldable pub nearest_from : ℕ → ℕ → ℕ → ℕ → ℕ
nearest_from zero levels level dist = level
nearest_from (suc rounds) levels level dist =
    let further = nearest_from rounds levels level (dist + 1) in
    if ltb (level + dist) 32 && has_level levels (level + dist)
    then level + dist
    else if leb dist level && has_level levels (level - dist)
    then level - dist
    else further

unfoldable pub nearest_within : ℕ → ℕ → ℕ → ℕ → ℕ
nearest_within levels reference_level low high =
    let level = max_of (min_of reference_level high) low in
    nearest_from (max_of (distance level low) (distance level high) + 1) levels level 0

unfoldable pub get_nearest_available_tile_key_level : ℕ → ℕ → Option ℕ
get_nearest_available_tile_key_level levels reference_level = do
  low ← get_min_tile_key_level levels
  high ← get_max_tile_key_level levels
  some (nearest_within levels reference_level low high)
