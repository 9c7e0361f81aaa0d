-- ===== src/Geo/TileKey/Tests.antt =====
-- TileKey on concrete tiles.
use here_olp_edge_sdk_cpp.Prelude.{
  ℕ, ◌+◌, ◌*◌, ◌^◌, ◌-◌, ◌<◌, ◌≤◌, ◌≡◌, true, none, some, arith, ◌↔◌, ◌%◌, refl,
}
use here_olp_edge_sdk_cpp.Geo.TileKey.{TileKey, IsValid, changed_level_to, is_child_of}
use here_olp_edge_sdk_cpp.Geo.TileKey.Levels.{is_child_of_iff}
use here_olp_edge_sdk_cpp.Geo.TileKey.Levels.Ancestors.{ancestor}
use here_olp_edge_sdk_cpp.Geo.TileKey.Morton.{to_quad_key64, from_quad_key64}
use here_olp_edge_sdk_cpp.Geo.TileKey.Morton.Encode.{to_quad_key64-morton_code, morton_code}
use here_olp_edge_sdk_cpp.Geo.TileKey.Morton.Decode.{from-to_quad_key64}
use here_olp_edge_sdk_cpp.Geo.TileKey.QuadKey.{to_quad_key, from_quad_key}
use here_olp_edge_sdk_cpp.Geo.TileKey.QuadKey.RoundTrip.{from-to_quad_key}
use here_olp_edge_sdk_cpp.Geo.TileKey.Relative.{
  get_absolute_sub_tile_key, get_relative_sub_tile_key, absolute-relative,
}
use here_olp_edge_sdk_cpp.Geo.TileKey.Subkey.{added_subkey, get_subkey, added_subkey_endless}
use here_olp_edge_sdk_cpp.Geo.TileKey.Appended.{
  to_here_tile, added_subkey_text, added_sub_here_tile, added_subkey-added_sub_here_tile,
}
use here_olp_edge_sdk_cpp.Geo.TileKey.LevelSet.{
  get_nearest_available_tile_key_level, get_min_tile_key_level, get_max_tile_key_level, min_level,
  log2_rounds, nearest_within, nearest_from,
}
use here_olp_edge_sdk_cpp.Geo.TileKey.LevelSet.Nearest.{
  IsNearest, get_nearest_available_tile_key_level-IsNearest,
}
use here_olp_edge_sdk_cpp.Geo.TileKey.Joined.{get_subkey-added_subkey}

abbrev tile : TileKey
tile = record { row = 3; column = 5; level = 3 }

tile-IsValid : IsValid tile
tile-IsValid = (omega arith, omega arith, omega arith)

abbrev corner : TileKey
corner = record { row = 0; column = 1; level = 1 }

corner-IsValid : IsValid corner
corner-IsValid = (omega arith, omega arith, omega arith)

is_child_of_iff_example :
    (is_child_of tile corner ≡ true) ↔ ((n : ℕ) × (0 < n) × (n ≤ 3) × (ancestor n tile ≡ corner))
is_child_of_iff_example = is_child_of_iff tile corner tile-IsValid corner-IsValid

to_quad_key64-morton_code_example : to_quad_key64 tile ≡ morton_code tile
to_quad_key64-morton_code_example = to_quad_key64-morton_code tile tile-IsValid

from-to_quad_key64_example : from_quad_key64 (to_quad_key64 tile) ≡ tile
from-to_quad_key64_example = from-to_quad_key64 tile tile-IsValid

from-to_quad_key_example : from_quad_key (to_quad_key tile) ≡ tile
from-to_quad_key_example = from-to_quad_key tile tile-IsValid

absolute-relative_example :
    get_absolute_sub_tile_key (changed_level_to tile 1) (get_relative_sub_tile_key tile 1) ≡ tile
absolute-relative_example = absolute-relative tile 1 tile-IsValid (omega arith)

get_subkey-added_subkey_example :
    (added_subkey 3 91 27 ≡ some (91 * 2 ^ (2 * 2) + (27 - 2 ^ (2 * 2))))
    × (get_subkey (91 * 2 ^ (2 * 2) + (27 - 2 ^ (2 * 2))) 2 ≡ 27)
get_subkey-added_subkey_example =
    get_subkey-added_subkey 2 91 27 (omega arith) (omega arith) (omega arith) (omega arith)

added_subkey_endless_example : added_subkey 100 1 (2 ^ 62) ≡ none
added_subkey_endless_example = added_subkey_endless 100 1 (2 ^ 62) (omega arith)

added_subkey-added_sub_here_tile_example :
    (added_subkey_text corner (to_quad_key tile) ≡ added_sub_here_tile corner (to_here_tile tile))
    × (ancestor 3 (added_sub_here_tile corner (to_here_tile tile)) ≡ corner)
    × ((added_sub_here_tile corner (to_here_tile tile)).row % 2 ^ 3 ≡ 3)
    × ((added_sub_here_tile corner (to_here_tile tile)).column % 2 ^ 3 ≡ 5)
added_subkey-added_sub_here_tile_example =
    added_subkey-added_sub_here_tile corner tile corner-IsValid tile-IsValid (omega arith)

-- The levels 2, 5 and 9.
abbrev levels : ℕ
levels = 0x224

nearest_of_six : get_nearest_available_tile_key_level levels 6 ≡ some 5
unfolding get_nearest_available_tile_key_level get_min_tile_key_level get_max_tile_key_level
    min_level log2_rounds nearest_within nearest_from
nearest_of_six = refl

get_nearest_available_tile_key_level-IsNearest_example :
    (found : ℕ) × (get_nearest_available_tile_key_level levels 6 ≡ some found)
    × IsNearest levels 6 found
get_nearest_available_tile_key_level-IsNearest_example =
    get_nearest_available_tile_key_level-IsNearest levels 6 (omega arith) (omega arith)
