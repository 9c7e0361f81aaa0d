-- ===== src/Geo/TileKey/Relative.antt =====
-- TileKeyUtils::GetRelativeSubTileKey() and GetAbsoluteSubTileKey() of
-- olp-cpp-sdk-core/src/geo/tiling/TileKeyUtils.cpp: a tile's place below one of its ancestors.
use here_olp_edge_sdk_cpp.Prelude.{
  ℕ, ◌-◌, ◌*◌, ◌/◌, ◌%◌, ◌^◌, ◌≤◌, ◌<◌, ◌≡◌, ap, ◌∙◌, add32, sub32, arith,
}
use here_olp_edge_sdk_cpp.Prelude.Int.{ℤ, pos, to_i32}
use here_olp_edge_sdk_cpp.Geo.TileKey.{
  TileKey, IsValid, from_row_column_level, changed_level_by, changed_level_to,
}
use here_olp_edge_sdk_cpp.Geo.TileKey.Levels.{
  ancestor-IsValid, changed_level_up, changed_level_down, changed_level_to_down,
}
use here_olp_edge_sdk_cpp.Geo.TileKey.Levels.Ancestors.{ancestor_lem, two-pow-le}
use mathlib.Core.Path.{subst, ap₂}
use native.Mathlib.Nat.{one-le-pow}

unfoldable pub get_relative_sub_tile_key : TileKey → ℕ → TileKey
get_relative_sub_tile_key key parent_level =
    let origin_key = changed_level_to (changed_level_to key parent_level) key.level in
    from_row_column_level (sub32 key.row origin_key.row) (sub32 key.column origin_key.column)
      (sub32 key.level parent_level)

unfoldable pub get_absolute_sub_tile_key : TileKey → TileKey → TileKey
get_absolute_sub_tile_key parent sub_tile =
    let abs_sub_tile_key = changed_level_by parent (to_i32 sub_tile.level) in
    from_row_column_level (add32 abs_sub_tile_key.row sub_tile.row)
      (add32 abs_sub_tile_key.column sub_tile.column) abs_sub_tile_key.level

-- The ancestor `n` levels up, by its row and column.
above : TileKey → ℕ → TileKey
above k n = from_row_column_level (k.row / 2 ^ n) (k.column / 2 ^ n) (k.level - n)

above-IsValid : (k : TileKey) (n : ℕ) → IsValid k → n ≤ k.level → IsValid (above k n)
unfolding above
above-IsValid k n v h = subst IsValid (ancestor_lem n k h) (ancestor-IsValid n k h v)

-- The tile's place below that ancestor.
below : TileKey → ℕ → TileKey
below k n = from_row_column_level (k.row % 2 ^ n) (k.column % 2 ^ n) n

to_above :
    (k : TileKey) (l : ℕ) → IsValid k → l ≤ k.level → changed_level_to k l ≡ above k (k.level - l)
unfolding above
to_above k l v h = changed_level_up k l v h ∙ ancestor_lem (k.level - l) k (omega arith)

rest : (x n : ℕ) → x < 2 ^ 31 → sub32 x (x / 2 ^ n * 2 ^ n) ≡ x % 2 ^ n
rest x n h = grind (arith, one-le-pow n 2)

origin_lem :
    (k : TileKey) (l : ℕ)
    → IsValid k
    → l ≤ k.level
    → changed_level_to (changed_level_to k l) k.level
      ≡ from_row_column_level
          (k.row / 2 ^ (k.level - l) * 2 ^ (k.level - l))
          (k.column / 2 ^ (k.level - l) * 2 ^ (k.level - l))
          k.level
unfolding above
origin_lem k l v h =
    ap (λ (t : TileKey). changed_level_to t k.level) (to_above k l v h)
    ∙ changed_level_to_down (above k (k.level - l)) k.level
        (above-IsValid k (k.level - l) v (omega arith)) (omega arith) v.0
    ∙ ap
        (λ (n : ℕ).
          from_row_column_level (k.row / 2 ^ (k.level - l) * 2 ^ n)
            (k.column / 2 ^ (k.level - l) * 2 ^ n) k.level)
        {x = k.level - (k.level - (k.level - l))} {y = k.level - l} (omega arith)

same_tile :
    {r s c d l m : ℕ}
    → r ≡ s
    → c ≡ d
    → l ≡ m
    → from_row_column_level r c l ≡ from_row_column_level s d m
same_tile p q t = λ i. from_row_column_level (p i) (q i) (t i)

relative_lem :
    (k : TileKey) (l : ℕ)
    → IsValid k
    → l ≤ k.level
    → get_relative_sub_tile_key k l ≡ below k (k.level - l)
unfolding get_relative_sub_tile_key below
relative_lem k l v h =
    ap
      (λ (o : TileKey).
        from_row_column_level (sub32 k.row o.row) (sub32 k.column o.column) (sub32 k.level l))
      (origin_lem k l v h)
    ∙ same_tile (rest k.row (k.level - l) (omega (arith, two-pow-le k v)))
        (rest k.column (k.level - l) (omega (arith, two-pow-le k v))) (omega arith)

joined : (x n : ℕ) → x < 2 ^ 31 → add32 (x / 2 ^ n * 2 ^ n) (x % 2 ^ n) ≡ x
joined x n h = grind (arith, one-le-pow n 2)

absolute_lem :
    (k : TileKey) (n : ℕ)
    → IsValid k
    → n ≤ k.level
    → get_absolute_sub_tile_key (above k n) (below k n) ≡ k
unfolding get_absolute_sub_tile_key above below
absolute_lem k n v h =
    ap (λ (z : ℤ). absolute (changed_level_by (above k n) z)) {x = to_i32 n} {y = pos n}
      (ground arith)
    ∙ ap absolute (changed_level_down (above k n) n (above-IsValid k n v h) (omega arith))
    ∙ same_tile (joined k.row n (omega (arith, two-pow-le k v)))
        (joined k.column n (omega (arith, two-pow-le k v))) (omega arith)
  where
    absolute : TileKey → TileKey
    absolute t =
        from_row_column_level (add32 t.row (k.row % 2 ^ n)) (add32 t.column (k.column % 2 ^ n))
          t.level

-- A tile that is taken relative to a level that is not below its own, and then put below its
-- ancestor on that level again, is itself, if it is valid.
pub absolute-relative :
    (k : TileKey) (l : ℕ)
    → IsValid k
    → l ≤ k.level
    → get_absolute_sub_tile_key (changed_level_to k l) (get_relative_sub_tile_key k l) ≡ k
absolute-relative k l v h =
    ap₂ get_absolute_sub_tile_key (to_above k l v h) (relative_lem k l v h)
    ∙ absolute_lem k (k.level - l) v (omega arith)
