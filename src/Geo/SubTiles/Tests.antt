-- ===== src/Geo/SubTiles/Tests.antt =====
-- SubTiles: small runs, and the theorems at concrete tiles.
use here_olp_edge_sdk_cpp.Prelude.{ℕ, ◌∷◌, [], ◌≡◌, ◌↔◌, ◌<◌, ◌^◌, refl, arith}
use here_olp_edge_sdk_cpp.Geo.TileKey.{TileKey, from_row_column_level, tile_eq}
use here_olp_edge_sdk_cpp.Geo.TileKey.Levels.Ancestors.{ancestor}
use here_olp_edge_sdk_cpp.Geo.SubTiles.{
  SubTiles, full_mask, sub_tiles, size, skip_rounds, skip, begin, end, next, deref, walk, sub_nodes,
}
use here_olp_edge_sdk_cpp.Geo.SubTiles.Selected.{selected, walk-selected}
use here_olp_edge_sdk_cpp.Geo.SubTiles.Children.{sub_tile_iff}

abbrev root : TileKey
root = from_row_column_level 1 1 1

-- The second and the fourth of the children.
abbrev two_children : SubTiles
two_children = record { tile_key = root; level = 1; count = 4; mask = 10; shift = 0 }

two_children_made : sub_tiles root 1 10 ≡ two_children
unfolding sub_tiles
two_children_made = refl

walk_two :
    walk 4 two_children (begin two_children)
    ≡ from_row_column_level 2 3 2 ∷ from_row_column_level 3 3 2 ∷ []
unfolding walk begin end next skip skip_rounds deref tile_eq
walk_two = refl

children_of_root :
    walk 4 (sub_nodes root 2 2) (begin (sub_nodes root 2 2))
    ≡ from_row_column_level 2 2 2
      ∷ from_row_column_level 2 3 2
      ∷ from_row_column_level 3 2 2
      ∷ from_row_column_level 3 3 2
      ∷ []
unfolding walk begin end next skip skip_rounds deref sub_nodes sub_tiles tile_eq
children_of_root = refl

walk-selected_example :
    walk (size (sub_tiles root 3 5)) (sub_tiles root 3 5) (begin (sub_tiles root 3 5))
    ≡ selected root 3 5 (4 ^ 3) 0
walk-selected_example =
    walk-selected root 3 5 ((omega arith, omega arith, omega arith), omega arith, omega arith)

sub_tile_iff_example : (ancestor 2 (from_row_column_level 5 6 3) ≡ root) ↔ (
    (index : ℕ) × (index < size (sub_tiles root 2 full_mask))
    × (deref (sub_tiles root 2 full_mask) index ≡ from_row_column_level 5 6 3))
sub_tile_iff_example =
    sub_tile_iff root 2 full_mask (from_row_column_level 5 6 3)
      ((omega arith, omega arith, omega arith), omega arith, omega arith) refl
