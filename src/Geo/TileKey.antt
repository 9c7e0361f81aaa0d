-- ===== src/Geo/TileKey.antt =====
-- The class TileKey of olp-cpp-sdk-core/include/olp/core/geo/tiling/TileKey.h and
-- olp-cpp-sdk-core/src/geo/tiling/TileKey.cpp: a tile of the quad tree by row, column and level,
-- and the steps from one tile to another. The theorems are in the modules below.
pub mod Levels
pub mod Morton
pub mod QuadKey
pub mod Relative
pub mod Subkey
pub mod Joined
pub mod Order
pub mod Appended
pub mod LevelSet
pub mod Neighbours
pub mod Tests
use here_olp_edge_sdk_cpp.Prelude.{
  ℕ, zero, suc, ◌+◌, ◌-◌, ◌*◌, ◌/◌, ◌%◌, ◌^◌, ◌<◌, Bool, false, not, ◌&&◌, ltb, leb, ◌==◌,
  if◌then◌else◌, bit_and, bit_or, shl32, shr, add32, sub32, mul32, Option, none, some,
}
use here_olp_edge_sdk_cpp.Prelude.Int.{ℤ, pos, negsuc, to_u32, to_i32}

abbrev pub level_count : ℕ
level_count = 32

pub record TileKey : Type 0 where
  pub row : ℕ
  pub column : ℕ
  pub level : ℕ

-- What IsValid() tests.
abbrev pub IsValid : TileKey → Type 0
IsValid k = (k.level < 32) × (k.row < 2 ^ k.level) × (k.column < 2 ^ k.level)

-- The default constructor.
abbrev pub invalid : TileKey
invalid = record { row = 0; column = 0; level = level_count }

unfoldable pub is_valid : TileKey → Bool
is_valid k = ltb k.level level_count && (ltb k.row (2 ^ k.level) && ltb k.column (2 ^ k.level))

-- operator==
unfoldable pub tile_eq : TileKey → TileKey → Bool
tile_eq k j = k.level == j.level && (k.row == j.row && k.column == j.column)

-- operator<
unfoldable pub tile_lt : TileKey → TileKey → Bool
tile_lt k j =
    if not (k.level == j.level)
    then ltb k.level j.level
    else (if not (k.row == j.row) then ltb k.row j.row else ltb k.column j.column)

abbrev pub from_row_column_level : ℕ → ℕ → ℕ → TileKey
from_row_column_level row column level = record { row = row; column = column; level = level }

-- RowCount() and ColumnCount().
unfoldable pub row_count : TileKey → ℕ
row_count k = shl32 1 k.level

unfoldable pub column_count : TileKey → ℕ
column_count k = shl32 1 k.level

unfoldable pub parent : TileKey → TileKey
parent k =
    if ltb 0 k.level
    then from_row_column_level (shr k.row 1) (shr k.column 1) (k.level - 1)
    else invalid

-- `if (level < 0) level = 0;`
abbrev pub clamp_level : ℤ → ℕ
clamp_level (pos n) = n
clamp_level (negsuc n) = 0

-- `level_ + delta`, which C++ computes without a sign and reads back as an `int`.
abbrev pub level_by : TileKey → ℤ → ℕ
level_by k delta = clamp_level (to_i32 (add32 k.level (to_u32 delta)))

unfoldable pub changed_level_by : TileKey → ℤ → TileKey
changed_level_by k (pos zero) = k
changed_level_by k (pos (suc n)) =
    from_row_column_level (shl32 k.row (suc n)) (shl32 k.column (suc n)) (level_by k (pos (suc n)))
changed_level_by k (negsuc n) =
    from_row_column_level (shr k.row (suc n)) (shr k.column (suc n)) (level_by k (negsuc n))

unfoldable pub changed_level_to : TileKey → ℕ → TileKey
changed_level_to k level = changed_level_by k (to_i32 (sub32 level k.level))

unfoldable pub is_child_of : TileKey → TileKey → Bool
is_child_of k j = if leb k.level j.level then false else tile_eq (changed_level_to k j.level) j

unfoldable pub is_parent_of : TileKey → TileKey → Bool
is_parent_of k j = is_child_of j k

unfoldable pub has_next_row : TileKey → Bool
has_next_row k = ltb k.row (2 ^ k.level - 1)

unfoldable pub has_next_column : TileKey → Bool
has_next_column k = ltb k.column (2 ^ k.level - 1)

unfoldable pub has_previous_row : TileKey → Bool
has_previous_row k = ltb 0 k.row

unfoldable pub has_previous_column : TileKey → Bool
has_previous_column k = ltb 0 k.column

unfoldable pub next_row : TileKey → TileKey
next_row k = from_row_column_level (add32 k.row 1) k.column k.level

unfoldable pub next_column : TileKey → TileKey
next_column k = from_row_column_level k.row (add32 k.column 1) k.level

unfoldable pub previous_row : TileKey → TileKey
previous_row k = from_row_column_level (sub32 k.row 1) k.column k.level

unfoldable pub previous_column : TileKey → TileKey
previous_column k = from_row_column_level k.row (sub32 k.column 1) k.level

-- The index is a `std::uint8_t`.
unfoldable pub get_child : TileKey → ℕ → TileKey
get_child k index =
    let result = changed_level_by k (pos 1) in
    record result {
      row = bit_or result.row (shr index 1);
      column = bit_or result.column (bit_and index 1);
    }

pub data TileKeyQuadrant : Type 0 where
  sw se nw ne no_quadrant : TileKeyQuadrant

abbrev pub quadrant_code : TileKeyQuadrant → ℕ
quadrant_code sw = 0
quadrant_code se = 1
quadrant_code nw = 2
quadrant_code ne = 3
quadrant_code no_quadrant = 4

-- `static_cast<TileKeyQuadrant>` of a number; `none` for a code with no enumerator.
abbrev pub quadrant_of : ℕ → Option TileKeyQuadrant
quadrant_of zero = some sw
quadrant_of (suc zero) = some se
quadrant_of (suc (suc zero)) = some nw
quadrant_of (suc (suc (suc zero))) = some ne
quadrant_of (suc (suc (suc (suc zero)))) = some no_quadrant
quadrant_of (suc (suc (suc (suc (suc n))))) = none

-- GetChild(TileKeyQuadrant).
unfoldable pub get_child_towards : TileKey → TileKeyQuadrant → TileKey
get_child_towards k direction = get_child k (quadrant_code direction)

unfoldable pub relationship_to_parent : TileKey → Option TileKeyQuadrant
relationship_to_parent k =
    if k.level == 0
    then some no_quadrant
    else (let sw_tile = get_child (parent k) 0 in
        quadrant_of
          (sub32 (add32 (mul32 (sub32 k.row sw_tile.row) 2) k.column) sw_tile.column % 2 ^ 8))
