-- ===== src/Geo/TileKey/Neighbours.antt =====
-- TileKey: the neighbours of a tile in its row and column, and its place below its parent.
use here_olp_edge_sdk_cpp.Prelude.{
  ℕ, ◌+◌, ◌*◌, ◌/◌, ◌%◌, ◌^◌, ◌≤◌, ◌<◌, ◌≡◌, ap, ◌∙◌, ◌↔◌, Bool, true, ◌==◌, ==-ne, if◌then◌else◌,
  add32, sub32, mul32, Option, some, arith,
}
use here_olp_edge_sdk_cpp.Geo.TileKey.{
  TileKey, IsValid, get_child, relationship_to_parent, quadrant_of, TileKeyQuadrant, no_quadrant,
  has_next_row, has_next_column, has_previous_row, has_previous_column, next_row, next_column,
  previous_row, previous_column,
}
use here_olp_edge_sdk_cpp.Geo.TileKey.Levels.Ancestors.{two-pow-le, get_child_lem, parent-get_child}
use mathlib.Core.Path.{ap₂}
use native.Mathlib.Nat.{pow-le-pow_right}

-- The next and the previous row or column of a valid tile are the neighbours of each other, and
-- HasNextRow() and its like say for which of them there is a valid tile.
next_row-previous_row :
    (k : TileKey)
    → IsValid k
    → ((has_next_row k ≡ true) ↔ IsValid (next_row k))
      × ((has_next_column k ≡ true) ↔ IsValid (next_column k))
      × ((has_previous_row k ≡ true) ↔ IsValid (previous_row k))
      × ((has_previous_column k ≡ true) ↔ IsValid (previous_column k))
      × (previous_row (next_row k) ≡ k)
      × (next_row (previous_row k) ≡ k)
      × (previous_column (next_column k) ≡ k)
      × (next_column (previous_column k) ≡ k)
unfolding has_next_row has_next_column has_previous_row has_previous_column next_row next_column
    previous_row previous_column
next_row-previous_row k v = (
  ground (arith, two-pow-le k v),
  ground (arith, two-pow-le k v),
  ground (arith, two-pow-le k v),
  ground (arith, two-pow-le k v),
  ground (arith, two-pow-le k v),
  ground (arith, two-pow-le k v),
  ground (arith, two-pow-le k v),
  ground (arith, two-pow-le k v),
)

below_top : (k : TileKey) → IsValid k → k.level < 31 → 2 ^ k.level ≤ 2 ^ 30
below_top k v l = pow-le-pow_right {n = 2} (omega arith) {i = k.level} {j = 30} (omega arith)

-- RelationshipToParent(), where the parent's first child is known.
code_lem :
    (r c i : ℕ)
    → i < 4
    → r < 2 ^ 30
    → c < 2 ^ 30
    → sub32
          (add32 (mul32 (sub32 (r * 2 + i / 2) (r * 2 + 0 / 2)) 2) (c * 2 + i % 2))
          (c * 2 + 0 % 2)
        % 2 ^ 8
      ≡ i
code_lem r c i h b b' = omega arith

from_child : TileKey → TileKey → Option TileKeyQuadrant
from_child k sw_tile =
    if k.level == 0
    then some no_quadrant
    else quadrant_of
        (sub32 (add32 (mul32 (sub32 k.row sw_tile.row) 2) k.column) sw_tile.column % 2 ^ 8)

-- A child knows where it is below its parent: RelationshipToParent() of the child at index `i` of a
-- valid tile above the last level is the quadrant whose code is `i`.
relationship_to_parent-get_child :
    (k : TileKey) (i : ℕ)
    → IsValid k
    → k.level < 31
    → i < 4
    → relationship_to_parent (get_child k i) ≡ quadrant_of i
unfolding relationship_to_parent from_child
relationship_to_parent-get_child k i v l h =
    ap (λ (t : TileKey). from_child (get_child k i) (get_child t 0)) (parent-get_child k i v l h)
    ∙ ap₂ from_child (get_child_lem k i v l h) (get_child_lem k 0 v l (omega arith))
    ∙ ap (λ (b : Bool). if b then some no_quadrant else quadrant_of (code i))
        (==-ne (k.level + 1) 0 (λ e. omega (arith, e)))
    ∙ ap quadrant_of (
        code_lem k.row k.column i h (omega (arith, below_top k v l))
          (omega (arith, below_top k v l)))
  where
    code : ℕ → ℕ
    code j =
        sub32
          (add32 (mul32 (sub32 (k.row * 2 + j / 2) (k.row * 2 + 0 / 2)) 2) (k.column * 2 + j % 2))
          (k.column * 2 + 0 % 2)
        % 2 ^ 8
