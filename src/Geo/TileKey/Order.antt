-- ===== src/Geo/TileKey/Order.antt =====
-- TileKey: operator< is a strict total order, for which operator== tells equals.
use here_olp_edge_sdk_cpp.Prelude.{◌≡◌, true, false, ◌⊎◌, inl, inr, arith, ◌&&◌, Bool-cases, not}
use here_olp_edge_sdk_cpp.Geo.TileKey.{TileKey, tile_lt}

tile_lt-irreflexive : (k : TileKey) → tile_lt k k ≡ false
unfolding tile_lt
tile_lt-irreflexive k = ground arith

tile_lt-transitive :
    (k j i : TileKey) → tile_lt k j ≡ true → tile_lt j i ≡ true → tile_lt k i ≡ true
unfolding tile_lt
tile_lt-transitive k j i p q = ground arith

tile_lt-total : (k j : TileKey) → (tile_lt k j ≡ true) ⊎ ((tile_lt j k ≡ true) ⊎ (k ≡ j))
unfolding tile_lt
tile_lt-total k j = ground arith

-- The comparison of tiles is irreflexive and transitive, and of two tiles that are not equal one is
-- before the other.
tile_lt-StrictTotal :
    (k j i : TileKey)
    → (tile_lt k k ≡ false)
      × (((tile_lt k j && tile_lt j i) && not (tile_lt k i)) ≡ false)
      × ((tile_lt k j ≡ true) ⊎ ((tile_lt j k ≡ true) ⊎ (k ≡ j)))
tile_lt-StrictTotal k j i = (tile_lt-irreflexive k, by_cases, tile_lt-total k j)
  where
    by_cases : ((tile_lt k j && tile_lt j i) && not (tile_lt k i)) ≡ false
    by_cases = elim (Bool-cases (tile_lt k j)) [
      | inl p ↦ elim (Bool-cases (tile_lt j i)) [
        | inl q ↦ rw (p, q, tile_lt-transitive k j i p q)
        | inr q ↦ rw (p, q)
      ]
      | inr p ↦ rw p
    ]
