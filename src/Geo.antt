-- ===== src/Geo.antt =====
-- olp-cpp-sdk-core, geo/tiling: the addresses of tiles in the quad tree.
pub mod TileKey
pub mod SubTiles
