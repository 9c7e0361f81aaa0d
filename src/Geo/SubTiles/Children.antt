-- ===== src/Geo/SubTiles/Children.antt =====
-- SubTiles: the tiles of the iteration are the tiles below the tile.
use here_olp_edge_sdk_cpp.Prelude.{
  ℕ, ◌+◌, ◌-◌, ◌*◌, ◌/◌, ◌%◌, ◌^◌, ◌≤◌, ◌<◌, ◌≡◌, refl, sym, ap, bit_or, bit_and, ◌∙◌, ◌↔◌, shl32,
  sub32, arith,
}
use here_olp_edge_sdk_cpp.Prelude.Bits.{high_field, low_field, bit_or_fields, bit_and_mask, pow-add}
use here_olp_edge_sdk_cpp.Geo.TileKey.{TileKey, IsValid, from_row_column_level}
use here_olp_edge_sdk_cpp.Geo.TileKey.Levels.{row-bound}
use here_olp_edge_sdk_cpp.Geo.TileKey.Levels.Ancestors.{ancestor, ancestor_lem}
use here_olp_edge_sdk_cpp.Geo.SubTiles.{sub_tiles, size, deref}
use mathlib.Core.Path.{subst}
use native.Mathlib.Nat.{
  pow-le-pow_right, div-lt_iff_lt-mul, one-le-pow, mod-eq_of_lt, mod-lt, div-add-mod',
}

-- The level is deep enough in the tree for 32 bits, and not too deep.
abbrev pub Fits : TileKey → ℕ → Type 0
Fits k l = (IsValid k) × (k.level + l < 32) × (l < 16)

pub one_shl : (l : ℕ) → l < 16 → shl32 1 l ≡ 2 ^ l
one_shl l h =
    let narrow : 2 ^ l ≤ 2 ^ 15 =
      pow-le-pow_right {n = 2} (omega arith) {i = l} {j = 15} (omega (arith, h)) in
    let one : 1 * 2 ^ l ≡ 2 ^ l = omega arith in
    ap (λ n. n % 2 ^ 32) one ∙ mod-eq_of_lt (omega (arith, narrow))

-- Size() of the tiles `l` levels below: four to the power of `l`.
pub size-sub_tiles : (k : TileKey) (l m : ℕ) → l < 16 → size (sub_tiles k l m) ≡ 2 ^ l * 2 ^ l
unfolding size sub_tiles
size-sub_tiles k l m h =
    let twice : shl32 l 1 ≡ l + l = omega (arith, h) in
    let narrow : 2 ^ (l + l) ≤ 2 ^ 30 =
      pow-le-pow_right {n = 2} (omega arith) {i = l + l} {j = 30} (omega (arith, h)) in
    let one : 1 * 2 ^ (l + l) ≡ 2 ^ (l + l) = omega arith in
    ap (λ n. shl32 1 n) twice
    ∙ ap (λ n. n % 2 ^ 32) one
    ∙ mod-eq_of_lt (omega (arith, narrow))
    ∙ pow-add l l

-- A coordinate of a tile below, within 32 bits.
below : (x d n l : ℕ) → x < 2 ^ n → n + l < 32 → d < 2 ^ l → bit_or (shl32 x l) d ≡ x * 2 ^ l + d
below x d n l inside fits small =
    ap (λ y. bit_or y d) (mod-eq_of_lt (row-bound x n l inside fits)) ∙ bit_or_fields l x d small

pub deref_lem :
    (k : TileKey) (l m index : ℕ)
    → Fits k l
    → index < 2 ^ l * 2 ^ l
    → deref (sub_tiles k l m) index
      ≡ from_row_column_level
          (k.row * 2 ^ l + index / 2 ^ l)
          (k.column * 2 ^ l + index % 2 ^ l)
          (k.level + l)
unfolding deref sub_tiles
deref_lem k l m index fits h =
    let v = fits.0 in
    let row =
      below k.row (index / 2 ^ l) k.level l v.1 fits.1
        ((div-lt_iff_lt-mul (one-le-pow l 2 (omega arith))).1 h) in
    let narrow : 2 ^ l ≤ 2 ^ 15 =
      pow-le-pow_right {n = 2} (omega arith) {i = l} {j = 15} (omega (arith, fits.2)) in
    let positive : 0 < 2 ^ l = one-le-pow l 2 (omega arith) in
    let ones : sub32 (2 ^ l) 1 ≡ 2 ^ l - 1 = omega (arith, narrow, positive) in
    let masked : bit_and index (sub32 (shl32 1 l) 1) ≡ index % 2 ^ l =
      ap (λ y. bit_and index (sub32 y 1)) (one_shl l fits.2)
      ∙ ap (λ y. bit_and index y) ones
      ∙ bit_and_mask l index in
    let column =
      ap (λ y. bit_or (shl32 k.column l) y) masked
      ∙ below k.column (index % 2 ^ l) k.level l v.2 fits.1 (mod-lt index positive) in
    let level : (k.level + l) % 2 ^ 32 ≡ k.level + l = omega (arith, fits.1) in
    rw (row, column, level)

whole : (x l : ℕ) → x / 2 ^ l * 2 ^ l + x % 2 ^ l ≡ x
whole x l = div-add-mod' x (2 ^ l)

deref-ancestor :
    (k : TileKey) (l m index : ℕ)
    → Fits k l
    → index < size (sub_tiles k l m)
    → ancestor l (deref (sub_tiles k l m) index) ≡ k
deref-ancestor k l m index fits h =
    let inside : index < 2 ^ l * 2 ^ l = subst (λ n. index < n) (size-sub_tiles k l m fits.2) h in
    let tile =
      from_row_column_level (k.row * 2 ^ l + index / 2 ^ l) (k.column * 2 ^ l + index % 2 ^ l)
        (k.level + l) in
    let positive : 0 < 2 ^ l = one-le-pow l 2 (omega arith) in
    let row = high_field k.row (index / 2 ^ l) l ((div-lt_iff_lt-mul positive).1 inside) in
    let column = high_field k.column (index % 2 ^ l) l (mod-lt index positive) in
    let level : k.level + l - l ≡ k.level = omega arith in
    ap (ancestor l) (deref_lem k l m index fits inside)
    ∙ ancestor_lem l tile (omega arith)
    ∙ rw (row, column, level) refl

-- The index of a tile.
abbrev index_of_tile : ℕ → TileKey → ℕ
index_of_tile l t = t.row % 2 ^ l * 2 ^ l + t.column % 2 ^ l

index_inside : (l : ℕ) (t : TileKey) → index_of_tile l t < 2 ^ l * 2 ^ l
index_inside l t =
    let positive : 0 < 2 ^ l = one-le-pow l 2 (omega arith) in
    let quotient = high_field (t.row % 2 ^ l) (t.column % 2 ^ l) l (mod-lt t.column positive) in
    (div-lt_iff_lt-mul positive).0 (subst (λ n. n < 2 ^ l) (sym quotient) (mod-lt t.row positive))

deref-index_of_tile :
    (k : TileKey) (l m : ℕ) (t : TileKey)
    → Fits k l
    → t.level ≡ k.level + l
    → ancestor l t ≡ k
    → deref (sub_tiles k l m) (index_of_tile l t) ≡ t
deref-index_of_tile k l m t fits level h =
    let positive : 0 < 2 ^ l = one-le-pow l 2 (omega arith) in
    let small = mod-lt t.column positive in
    let above = sym (ancestor_lem l t (omega (arith, level))) ∙ h in
    let row : t.row / 2 ^ l ≡ k.row = ap (λ (n : TileKey). n.row) above in
    let column : t.column / 2 ^ l ≡ k.column = ap (λ (n : TileKey). n.column) above in
    let quotient = high_field (t.row % 2 ^ l) (t.column % 2 ^ l) l small in
    let remainder = low_field (t.row % 2 ^ l) (t.column % 2 ^ l) l small in
    deref_lem k l m (index_of_tile l t) fits (index_inside l t)
    ∙ rw (quotient, remainder, sym row, sym column, whole t.row l, whole t.column l, sym level) refl

-- The tiles on a level below a valid tile whose Parent(), taken as many times, is the tile are those that
-- the iteration has at an index below Size(), when the level is below 32 and less than 16 levels down.
pub sub_tile_iff :
    (k : TileKey) (l m : ℕ) (t : TileKey)
    → Fits k l
    → t.level ≡ k.level + l
    → (ancestor l t ≡ k)
      ↔ ((index : ℕ) × (index < size (sub_tiles k l m)) × (deref (sub_tiles k l m) index ≡ t))
sub_tile_iff k l m t fits level = (there, back)
  where
    there :
        ancestor l t ≡ k
        → (index : ℕ) × (index < size (sub_tiles k l m)) × (deref (sub_tiles k l m) index ≡ t)
    there h = (
      index_of_tile l t,
      subst (λ n. index_of_tile l t < n) (sym (size-sub_tiles k l m fits.2)) (index_inside l t),
      deref-index_of_tile k l m t fits level h,
    )

    back :
        ((index : ℕ) × (index < size (sub_tiles k l m)) × (deref (sub_tiles k l m) index ≡ t))
        → ancestor l t ≡ k
    back (index, inside, e) = ap (ancestor l) (sym e) ∙ deref-ancestor k l m index fits inside
