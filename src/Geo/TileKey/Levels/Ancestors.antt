-- ===== src/Geo/TileKey/Levels/Ancestors.antt =====
-- TileKey: validity, children and parents, and the ancestors of a tile.
use here_olp_edge_sdk_cpp.Prelude.{
  ℕ, zero, suc, ◌+◌, ◌-◌, ◌*◌, ◌/◌, ◌%◌, ◌^◌, ◌≤◌, ◌<◌, ◌≡◌, ◌↔◌, true, arith,
}
use here_olp_edge_sdk_cpp.Prelude.Bits.{bit_and-one, bit_or_fields}
use here_olp_edge_sdk_cpp.Geo.TileKey.{
  TileKey, IsValid, is_valid, tile_eq, parent, changed_level_by, get_child, from_row_column_level,
}
use native.Mathlib.Nat.{pow-suc, pow-le-pow_right, div-div-eq-div-mul}

pub is_valid_iff : (k : TileKey) → (is_valid k ≡ true) ↔ IsValid k
unfolding is_valid
is_valid_iff k = ground arith

pub tile_eq_iff : (k j : TileKey) → (tile_eq k j ≡ true) ↔ (k ≡ j)
unfolding tile_eq
tile_eq_iff k j = ground arith

pub two-pow-le : (k : TileKey) → IsValid k → 2 ^ k.level ≤ 2 ^ 31
two-pow-le k v = pow-le-pow_right {n = 2} (omega arith) {i = k.level} {j = 31} (omega arith)

-- A child of a tile that is not on the last level.
pub get_child_lem :
    (k : TileKey) (i : ℕ)
    → IsValid k
    → k.level < 31
    → i < 4
    → get_child k i ≡ from_row_column_level (k.row * 2 + i / 2) (k.column * 2 + i % 2) (k.level + 1)
unfolding get_child changed_level_by
get_child_lem k i v l h = ground (
  arith,
  two-pow-le k v,
  bit_and-one i,
  bit_or_fields 1 k.row (i / 2),
  bit_or_fields 1 k.column (i % 2),
)

pub get_child-IsValid :
    (k : TileKey) (i : ℕ) → IsValid k → k.level < 31 → i < 4 → IsValid (get_child k i)
get_child-IsValid k i v l h = ground (arith, get_child_lem k i v l h, pow-suc 2 k.level)

pub parent_lem :
    (k : TileKey)
    → 0 < k.level
    → parent k ≡ from_row_column_level (k.row / 2) (k.column / 2) (k.level - 1)
unfolding parent
parent_lem k h = ground arith

two-pow-level : (n : ℕ) → 0 < n → 2 ^ n ≡ 2 ^ (n - 1) * 2
two-pow-level (suc n) h = ground (arith, pow-suc 2 n)
two-pow-level zero h = absurd (omega arith)

pub parent-IsValid : (k : TileKey) → IsValid k → 0 < k.level → IsValid (parent k)
parent-IsValid k v h = ground (arith, parent_lem k h, two-pow-level k.level h)

-- The parent of each child of a valid tile above the last level is the tile.
pub parent-get_child :
    (k : TileKey) (i : ℕ) → IsValid k → k.level < 31 → i < 4 → parent (get_child k i) ≡ k
parent-get_child k i v l h = rw (get_child_lem k i v l h) (
    ground (
      arith,
      parent_lem (from_row_column_level (k.row * 2 + i / 2) (k.column * 2 + i % 2) (k.level + 1)),
    ))

-- The quadrant of a tile below its parent.
pub quadrant : TileKey → ℕ
quadrant k = k.row % 2 * 2 + k.column % 2

-- A valid tile that is not the root is the child of its parent at its own quadrant.
get_child-parent : (k : TileKey) → IsValid k → 0 < k.level → get_child (parent k) (quadrant k) ≡ k
unfolding quadrant
get_child-parent k v h =
    ground (arith, parent_lem k h, get_child_lem (parent k) (quadrant k) (parent-IsValid k v h))

unfoldable pub ancestor : ℕ → TileKey → TileKey
ancestor zero k = k
ancestor (suc n) k = ancestor n (parent k)

pub ancestor_lem :
    (n : ℕ) (k : TileKey)
    → n ≤ k.level
    → ancestor n k ≡ from_row_column_level (k.row / 2 ^ n) (k.column / 2 ^ n) (k.level - n)
unfolding ancestor
ancestor_lem zero k h = ground arith
ancestor_lem (suc n) k h = ground (
  arith,
  parent_lem k,
  ancestor_lem n (parent k),
  pow-suc 2 n,
  div-div-eq-div-mul k.row 2 (2 ^ n),
  div-div-eq-div-mul k.column 2 (2 ^ n),
)
