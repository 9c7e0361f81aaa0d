-- ===== src/Geo/SubTiles.antt =====
-- The class SubTiles of olp-cpp-sdk-core/include/olp/core/geo/tiling/SubTiles.h, which runs over the
-- tiles a number of levels below a tile, and TileTreeTraverse::SubNodes() of
-- src/geo/tiling/TileTreeTraverse.cpp. An iterator is its index; a loop recurs on the rounds that are
-- left up to `count_`.
pub mod Walk
pub mod Children
pub mod Selected
pub mod Tests
use here_olp_edge_sdk_cpp.Prelude.{
  ℕ, zero, suc, ◌+◌, ◌-◌, ◌*◌, ◌/◌, ◌%◌, ◌^◌, Bool, ◌&&◌, ltb, ◌==◌, if◌then◌else◌, List, [], ◌∷◌,
  bit_and, bit_or, shl32, shr, add32, sub32,
}
use here_olp_edge_sdk_cpp.Geo.TileKey.{TileKey, from_row_column_level, tile_eq}

pub record SubTiles : Type 0 where
  pub tile_key : TileKey
  pub level : ℕ
  pub count : ℕ
  pub mask : ℕ
  pub shift : ℕ

-- `static_cast<std::uint16_t>(-1)`
abbrev pub full_mask : ℕ
full_mask = 2 ^ 16 - 1

unfoldable pub sub_tiles : TileKey → ℕ → ℕ → SubTiles
sub_tiles tile_key level mask = record {
  tile_key = tile_key;
  level = level;
  count = shl32 1 (shl32 level 1);
  mask = mask;
  shift = if ltb 2 level then shl32 (level - 2) 1 else 0;
}

unfoldable pub size : SubTiles → ℕ
size s = s.count

-- The test of the loop of Skip(): the bit of the tile's group is not set.
abbrev pub is_masked : SubTiles → ℕ → Bool
is_masked s index = bit_and s.mask (shl32 1 (shr index s.shift)) == 0

unfoldable pub skip_rounds : ℕ → SubTiles → ℕ → ℕ
skip_rounds zero s index = index
skip_rounds (suc rounds) s index =
    let next = skip_rounds rounds s (index + 1) in
    if ltb index s.count && is_masked s index then next else index

unfoldable pub skip : SubTiles → ℕ → ℕ
skip s index = if s.mask == full_mask then index else skip_rounds (s.count - index) s index

-- begin() and cbegin(), end() and cend(), operator++, operator==
unfoldable pub begin : SubTiles → ℕ
begin s = skip s 0

unfoldable pub end : SubTiles → ℕ
end s = skip s s.count

unfoldable pub next : SubTiles → ℕ → ℕ
next s index = skip s (index + 1)

abbrev pub iterator_eq : SubTiles → ℕ → ℕ → Bool
iterator_eq s index other = tile_eq s.tile_key s.tile_key && index == other

-- operator*
unfoldable pub deref : SubTiles → ℕ → TileKey
deref s index =
    from_row_column_level (bit_or (shl32 s.tile_key.row s.level) (shr index s.level))
      (bit_or (shl32 s.tile_key.column s.level) (bit_and index (sub32 (shl32 1 s.level) 1)))
      (add32 s.tile_key.level s.level)

-- A loop from an iterator to the end, and the tiles that it sees.
unfoldable pub walk : ℕ → SubTiles → ℕ → List TileKey
walk zero s index = []
walk (suc rounds) s index =
    let rest = walk rounds s (next s index) in
    if iterator_eq s index (end s) then [] else deref s index ∷ rest

-- `width` and `height` are the size that the subdivision scheme gives for the level of the node.
unfoldable pub sub_nodes : TileKey → ℕ → ℕ → SubTiles
sub_nodes node width height =
    let count = width * height % 2 ^ 32 in sub_tiles node 1 ((2 ^ count - 1) % 2 ^ 16)
