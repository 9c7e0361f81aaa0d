-- ===== src/Geo/TileKey/QuadKey.antt =====
-- TileKey and the strings of base-4 digits: ToQuadKey() and FromQuadKey() of
-- olp-cpp-sdk-core/src/geo/tiling/TileKey.cpp. A string is the list of its character codes.
pub mod Digits
pub mod RoundTrip
use here_olp_edge_sdk_cpp.Prelude.{
  ℕ, zero, suc, ◌+◌, ◌-◌, ◌*◌, ◌/◌, ◌%◌, Bool, false, not, ◌==◌, if◌then◌else◌, bit_and, bit_or,
  shl32, shl64, sub32, List, [], ◌∷◌, get_or, set, replicate, length, u32_mod,
}
use here_olp_edge_sdk_cpp.Geo.TileKey.{TileKey, invalid, is_valid, from_row_column_level}
use here_olp_edge_sdk_cpp.Geo.TileKey.Morton.{to_quad_key64}

-- The loop of ToQuadKey(): `rounds` iterations are left and `i` are done.
unfoldable pub write_digits : ℕ → ℕ → ℕ → ℕ → List ℕ → List ℕ
write_digits zero i morton_key level key = key
write_digits (suc rounds) i morton_key level key =
    write_digits rounds (i + 1) morton_key level
      (set key (level - i - 1) (morton_key / shl64 1 (2 * i) % 4 + b'0'))

unfoldable pub to_quad_key : TileKey → List ℕ
to_quad_key k =
    if not (is_valid k)
    then []
    else (if k.level == 0
        then b'-' ∷ []
        else write_digits k.level 0 (to_quad_key64 k) k.level (replicate k.level 0))

abbrev pub is_dash : List ℕ → Bool
is_dash (c ∷ []) = c == b'-'
is_dash _ = false

-- The body of the loop of FromQuadKey(); `d` is an `int`.
abbrev pub read_char : List ℕ → ℕ → TileKey → TileKey
read_char quad_key i r =
    let mask = shl32 1 i in
    let d = sub32 (get_or quad_key (r.level - i - 1) 0) b'0' in
    record r {
      row = if not (bit_and d 2 == 0) then bit_or r.row mask else r.row;
      column = if not (bit_and d 1 == 0) then bit_or r.column mask else r.column;
    }

unfoldable pub read_chars : ℕ → ℕ → List ℕ → TileKey → TileKey
read_chars zero i quad_key r = r
read_chars (suc rounds) i quad_key r = read_chars rounds (i + 1) quad_key (read_char quad_key i r)

unfoldable pub from_quad_key : List ℕ → TileKey
from_quad_key [] = invalid
from_quad_key (c ∷ s) =
    let result = from_row_column_level 0 0 0 in
    if is_dash (c ∷ s)
    then result
    else read_chars (length (c ∷ s)) 0 (c ∷ s) (record result { level = length (c ∷ s) % u32_mod })
