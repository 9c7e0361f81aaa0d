-- ===== src/Geo/TileKey/Levels.antt =====
-- TileKey: the steps between levels.
pub mod Ancestors
use here_olp_edge_sdk_cpp.Prelude.{
  ℕ, zero, suc, ◌+◌, ◌-◌, ◌*◌, ◌/◌, ◌%◌, ◌^◌, ◌≤◌, ◌<◌, ◌≡◌, sym, ap, ◌∙◌, ◌↔◌, true, sub32, arith,
}
use here_olp_edge_sdk_cpp.Prelude.Int.{pos, negsuc, to_i32}
use here_olp_edge_sdk_cpp.Prelude.Bits.{pow-add}
use here_olp_edge_sdk_cpp.Geo.TileKey.{
  TileKey, IsValid, parent, changed_level_by, changed_level_to, is_child_of, from_row_column_level,
  level_by,
}
use native.Mathlib.Nat.{pow-le-pow_right, mul-div_cancel, one-le-pow, mod-eq_of_lt}
use native.Mathlib.Decide.{dec_lt}
use here_olp_edge_sdk_cpp.Geo.TileKey.Levels.Ancestors.{
  ancestor, ancestor_lem, parent-IsValid, parent_lem, tile_eq_iff,
}

to_i32-sub_lt : (l m : ℕ) → l < m → m < 2 ^ 31 → to_i32 (sub32 l m) ≡ negsuc (m - l - 1)
to_i32-sub_lt l m h b = ground arith

to_i32-sub_ge : (l m : ℕ) → m ≤ l → l < 2 ^ 31 → to_i32 (sub32 l m) ≡ pos (l - m)
to_i32-sub_ge l m h b = ground arith

level_by-negsuc :
    (k : TileKey) (n : ℕ) → n < k.level → k.level < 32 → level_by k (negsuc n) ≡ k.level - suc n
level_by-negsuc k n h v = ground arith

level_by-pos : (k : TileKey) (n : ℕ) → k.level + n < 32 → level_by k (pos n) ≡ k.level + n
level_by-pos k n h = ground arith

-- Up by `n + 1` levels.
changed_level_by_lem :
    (k : TileKey) (n : ℕ)
    → n < k.level
    → k.level < 32
    → changed_level_by k (negsuc n) ≡ ancestor (suc n) k
unfolding changed_level_by
changed_level_by_lem k n h v = rw (ancestor_lem (suc n) k h, level_by-negsuc k n h v)

level_by_none : (k : TileKey) (m n : ℕ) → m ≡ 0 → n ≡ 0 → changed_level_by k (pos m) ≡ ancestor n k
unfolding changed_level_by ancestor
level_by_none k m n p q = rw (p, q)

-- ChangedLevelTo() of a valid tile, to a level that is not below its own, gives the ancestor on that
-- level: Parent() as often as the levels differ.
pub changed_level_up :
    (k : TileKey) (l : ℕ)
    → IsValid k
    → l ≤ k.level
    → changed_level_to k l ≡ ancestor (k.level - l) k
unfolding changed_level_to
changed_level_up k l v h = elim (dec_lt l k.level) [
  | yes p ↦
      rw
        (
          to_i32-sub_lt l k.level p (omega arith),
          changed_level_by_lem k (k.level - l - 1) (omega arith) v.0,
        )
        (ap (λ (t : ℕ). ancestor t k) {x = suc (k.level - l - 1)} (omega arith))
  | no p ↦
      rw (to_i32-sub_ge l k.level (omega arith) (omega arith))
        (level_by_none k _ _ (omega arith) (omega arith))
]

pub row-bound : (x m n : ℕ) → x < 2 ^ m → m + n < 32 → x * 2 ^ n < 2 ^ 32
row-bound x m n h b = grind (
  arith,
  pow-add m n,
  pow-le-pow_right {n = 2} (omega arith) {i = m + n} {j = 31} (omega arith),
  one-le-pow n 2,
)

pub changed_level_down :
    (k : TileKey) (n : ℕ)
    → IsValid k
    → k.level + n < 32
    → changed_level_by k (pos n)
      ≡ from_row_column_level (k.row * 2 ^ n) (k.column * 2 ^ n) (k.level + n)
unfolding changed_level_by
changed_level_down k zero v h = ground arith
changed_level_down k (suc n) v h = ground (
  arith,
  level_by-pos k (suc n),
  row-bound k.row k.level (suc n),
  row-bound k.column k.level (suc n),
  mod-eq_of_lt {n = k.row * 2 ^ suc n} {m = 2 ^ 32},
  mod-eq_of_lt {n = k.column * 2 ^ suc n} {m = 2 ^ 32},
)

pub changed_level_to_down :
    (k : TileKey) (l : ℕ)
    → IsValid k
    → k.level ≤ l
    → l < 32
    → changed_level_to k l
      ≡ from_row_column_level (k.row * 2 ^ (l - k.level)) (k.column * 2 ^ (l - k.level)) l
unfolding changed_level_to
changed_level_to_down k l v h b =
    rw (to_i32-sub_ge l k.level h (omega arith), changed_level_down k (l - k.level) v (omega arith))
      (ground arith)

pub ancestor-IsValid : (n : ℕ) (k : TileKey) → n ≤ k.level → IsValid k → IsValid (ancestor n k)
unfolding ancestor
ancestor-IsValid zero k h v = v
ancestor-IsValid (suc n) k h v =
    ancestor-IsValid n (parent k) (ground (arith, parent_lem k)) (parent-IsValid k v (omega arith))

down-IsValid :
    (k : TileKey) (n : ℕ)
    → IsValid k
    → k.level + n < 32
    → IsValid (from_row_column_level (k.row * 2 ^ n) (k.column * 2 ^ n) (k.level + n))
down-IsValid k n v b = (b, scaled k.row v.1, scaled k.column v.2)
  where
    scaled : (x : ℕ) → x < 2 ^ k.level → x * 2 ^ n < 2 ^ (k.level + n)
    scaled x h = rw (pow-add k.level n) (grind (arith, one-le-pow n 2))

-- ChangedLevelTo() of a valid tile, to any of the levels below 32, gives a valid tile.
changed_level_to-IsValid :
    (k : TileKey) (l : ℕ) → IsValid k → l < 32 → IsValid (changed_level_to k l)
changed_level_to-IsValid k l v b = elim (dec_lt l k.level) [
  | yes p ↦
      rw (changed_level_up k l v (omega arith)) (ancestor-IsValid (k.level - l) k (omega arith) v)
  | no p ↦
      rw (changed_level_to_down k l v (omega arith) b)
        (ground (arith, down-IsValid k (l - k.level) v (omega arith)))
]

-- ChangedLevelTo() of a valid tile to a lower level of the tree (below 32), and back to the tile's own
-- level, gives the tile.
changed_level_round :
    (k : TileKey) (l : ℕ)
    → IsValid k
    → k.level ≤ l
    → l < 32
    → changed_level_to (changed_level_to k l) k.level ≡ k
changed_level_round k l v h b =
    rw
      (changed_level_up (changed_level_to k l) k.level (changed_level_to-IsValid k l v b)
        (ground (arith, changed_level_to_down k l v h b)))
      (rw (changed_level_to_down k l v h b) (
        ground (
          arith,
          ancestor_lem (l - k.level)
              (from_row_column_level (k.row * 2 ^ (l - k.level)) (k.column * 2 ^ (l - k.level)) l),
          one-le-pow (l - k.level) 2,
          mul-div_cancel k.row {n = 2 ^ (l - k.level)},
          mul-div_cancel k.column {n = 2 ^ (l - k.level)},
        )))

ancestor-level : (n : ℕ) (k : TileKey) → n ≤ k.level → (ancestor n k).level ≡ k.level - n
ancestor-level n k h = rw (ancestor_lem n k h)

-- IsChildOf() of two valid tiles says whether the second is an ancestor of the first: its Parent()
-- one or more times, with no step above the root.
pub is_child_of_iff :
    (k j : TileKey)
    → IsValid k
    → IsValid j
    → (is_child_of k j ≡ true) ↔ ((n : ℕ) × (0 < n) × (n ≤ k.level) × (ancestor n k ≡ j))
unfolding is_child_of
is_child_of_iff k j v w = (there, back)
  where
    there : is_child_of k j ≡ true → (n : ℕ) × (0 < n) × (n ≤ k.level) × (ancestor n k ≡ j)
    there e = (
      k.level - j.level,
      ground arith,
      ground arith,
      ground (arith, changed_level_up k j.level v, tile_eq_iff (changed_level_to k j.level) j),
    )

    back : ((n : ℕ) × (0 < n) × (n ≤ k.level) × (ancestor n k ≡ j)) → is_child_of k j ≡ true
    back (n, positive, h, e) =
        let l : j.level ≡ k.level - n =
          sym (ap (λ (t : TileKey). t.level) e) ∙ ancestor-level n k h in
        let m : k.level - j.level ≡ n = omega arith in
        let up : changed_level_to k j.level ≡ j =
          changed_level_up k j.level v (omega arith) ∙ ap (λ (t : ℕ). ancestor t k) m ∙ e in
        ground (arith, (tile_eq_iff (changed_level_to k j.level) j).1 up)
