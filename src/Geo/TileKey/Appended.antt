-- ===== src/Geo/TileKey/Appended.antt =====
-- TileKey and the texts that stand for a tile below another: ToHereTile(), FromHereTile(),
-- AddedSubkey() and AddedSubHereTile() of olp-cpp-sdk-core/src/geo/tiling/TileKey.cpp.
use here_olp_edge_sdk_cpp.Prelude.{
  ℕ, ◌+◌, ◌-◌, ◌*◌, ◌%◌, ◌^◌, ◌<◌, ◌≡◌, refl, sym, ap, ◌∙◌, if◌then◌else◌, [], ◌∷◌, add32, arith,
}
use here_olp_edge_sdk_cpp.Prelude.Int.{pos, to_i32}
use here_olp_edge_sdk_cpp.Prelude.Text.{Text, is_empty}
use here_olp_edge_sdk_cpp.Prelude.Decimal.{to_text, strtoull, strtoull-to_text, to_text-not_empty}
use here_olp_edge_sdk_cpp.Geo.TileKey.{
  TileKey, IsValid, invalid, changed_level_by, from_row_column_level,
}
use here_olp_edge_sdk_cpp.Geo.TileKey.Morton.{to_quad_key64, from_quad_key64}
use here_olp_edge_sdk_cpp.Geo.TileKey.Morton.Spread.{spread-lt}
use here_olp_edge_sdk_cpp.Geo.TileKey.Morton.Encode.{morton_code_lem, to_quad_key64-morton_code}
use here_olp_edge_sdk_cpp.Prelude.Bits.{high_field, low_field, fields_lt}
use native.Mathlib.Nat.{pow-le-pow_right, mod-eq_of_lt}
use here_olp_edge_sdk_cpp.Geo.TileKey.Morton.Decode.{from-to_quad_key64}
use here_olp_edge_sdk_cpp.Geo.TileKey.QuadKey.{to_quad_key, from_quad_key}
use here_olp_edge_sdk_cpp.Geo.TileKey.QuadKey.RoundTrip.{from-to_quad_key}
use here_olp_edge_sdk_cpp.Geo.TileKey.Levels.{changed_level_down}
use here_olp_edge_sdk_cpp.Geo.TileKey.Levels.Ancestors.{ancestor, ancestor_lem}

unfoldable pub to_here_tile : TileKey → Text
to_here_tile k = to_text (to_quad_key64 k)

unfoldable pub from_here_tile : Text → TileKey
from_here_tile key = if is_empty key then invalid else from_quad_key64 (strtoull key)

-- The end that AddedSubkey() and AddedSubHereTile() have in common.
unfoldable pub appended : TileKey → TileKey → TileKey
appended k sub_quad =
    let child = changed_level_by k (to_i32 sub_quad.level) in
    from_row_column_level (add32 child.row sub_quad.row) (add32 child.column sub_quad.column)
      child.level

unfoldable pub added_subkey_text : TileKey → Text → TileKey
added_subkey_text k sub_quad_key =
    appended k (from_quad_key (if is_empty sub_quad_key then b'-' ∷ [] else sub_quad_key))

unfoldable pub added_sub_here_tile : TileKey → Text → TileKey
added_sub_here_tile k sub_here_tile = appended k (from_here_tile sub_here_tile)

-- The code of a valid tile fits 64 bits.
to_quad_key64_fits : (k : TileKey) → IsValid k → to_quad_key64 k < 2 ^ 64
to_quad_key64_fits k v = omega (
  arith,
  to_quad_key64-morton_code k v,
  morton_code_lem k,
  spread-lt k.level k.row,
  spread-lt k.level k.column,
  pow-le-pow_right {n = 2} (omega arith) {i = 2 * k.level} {j = 62} (omega (arith, v.0)),
)

-- The text of a valid tile is read back as the tile.
pub from-to_here_tile : (k : TileKey) → IsValid k → from_here_tile (to_here_tile k) ≡ k
unfolding from_here_tile to_here_tile
from-to_here_tile k v = rw (to_text-not_empty (to_quad_key64 k)) (
    ap from_quad_key64 (strtoull-to_text (to_quad_key64 k) (to_quad_key64_fits k v))
    ∙ from-to_quad_key64 k v)

appended_lem :
    (k t : TileKey)
    → IsValid k
    → IsValid t
    → k.level + t.level < 32
    → appended k t
      ≡ from_row_column_level
          (k.row * 2 ^ t.level + t.row)
          (k.column * 2 ^ t.level + t.column)
          (k.level + t.level)
unfolding appended
appended_lem k t v w fits =
    let delta : to_i32 t.level ≡ pos t.level = ground (arith, w.0) in
    rw (delta, changed_level_down k t.level v fits)
      (rw (placed k.row t.row v.1 w.1, placed k.column t.column v.2 w.2) refl)
  where
    placed :
        (x d : ℕ)
        → x < 2 ^ k.level
        → d < 2 ^ t.level
        → add32 (x * 2 ^ t.level) d ≡ x * 2 ^ t.level + d
    placed x d narrow small = mod-eq_of_lt (
        omega (
          arith,
          fields_lt x d k.level t.level narrow small,
          pow-le-pow_right {n = 2} (omega arith) {i = k.level + t.level} {j = 31}
              (omega (arith, fits)),
        ))

-- The text of a valid tile is not empty, so AddedSubkey() reads it as it is.
or_dash :
    (s : Text) (t : TileKey)
    → IsValid t
    → from_quad_key s ≡ t
    → from_quad_key (if is_empty s then b'-' ∷ [] else s) ≡ t
unfolding from_quad_key is_empty
or_dash [] t w e = absurd (omega (arith, w.0, ap (λ (k : TileKey). k.level) e))
or_dash (c ∷ s) t w e = e

-- AddedSubkey() and AddedSubHereTile() of a valid tile, for the quad key and for the decimal text of
-- another one, when the two levels together are below 32, give the same tile: its Parent(), taken as
-- many times as the level of the second tile, is the first one, and the rows and columns that it has
-- beyond those are the row and the column of the second.
pub added_subkey-added_sub_here_tile :
    (k t : TileKey)
    → IsValid k
    → IsValid t
    → k.level + t.level < 32
    → (added_subkey_text k (to_quad_key t) ≡ added_sub_here_tile k (to_here_tile t))
      × (ancestor t.level (added_sub_here_tile k (to_here_tile t)) ≡ k)
      × ((added_sub_here_tile k (to_here_tile t)).row % 2 ^ t.level ≡ t.row)
      × ((added_sub_here_tile k (to_here_tile t)).column % 2 ^ t.level ≡ t.column)
unfolding added_subkey_text added_sub_here_tile
added_subkey-added_sub_here_tile k t v w fits =
    let text = or_dash (to_quad_key t) t w (from-to_quad_key t w) in
    let read = from-to_here_tile t w in
    let tile =
      from_row_column_level (k.row * 2 ^ t.level + t.row) (k.column * 2 ^ t.level + t.column)
        (k.level + t.level) in
    let made : appended k (from_here_tile (to_here_tile t)) ≡ tile =
      ap (appended k) read ∙ appended_lem k t v w fits in
    let row = high_field k.row t.row t.level w.1 in
    let column = high_field k.column t.column t.level w.2 in
    let level : k.level + t.level - t.level ≡ k.level = omega arith in
    (
      ap (appended k) (text ∙ sym read),
      ap (ancestor t.level) made
          ∙ ancestor_lem t.level tile (omega arith)
          ∙ rw (row, column, level) refl,
      ap (λ (j : TileKey). j.row % 2 ^ t.level) made ∙ low_field k.row t.row t.level w.1,
      ap (λ (j : TileKey). j.column % 2 ^ t.level) made ∙ low_field k.column t.column t.level w.2,
    )
