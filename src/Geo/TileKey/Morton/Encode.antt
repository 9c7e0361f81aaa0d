-- ===== src/Geo/TileKey/Morton/Encode.antt =====
-- ToQuadKey64(): the code is the digits of row and column in turn, under a leading one.
use here_olp_edge_sdk_cpp.Prelude.{
  ℕ, suc, ◌+◌, ◌*◌, ◌/◌, ◌%◌, ◌^◌, ◌<◌, ◌≡◌, refl, ap, ◌∙◌, bit_or, shl64, arith,
}
use here_olp_edge_sdk_cpp.Prelude.Bits.{bit_or_assoc, bit_or_fields, bit_and_mask}
use here_olp_edge_sdk_cpp.Geo.TileKey.{TileKey, IsValid, get_child}
use here_olp_edge_sdk_cpp.Geo.TileKey.Levels.Ancestors.{get_child_lem}
use here_olp_edge_sdk_cpp.Geo.TileKey.Morton.{part, to_quad_key64}
use here_olp_edge_sdk_cpp.Geo.TileKey.Morton.Spread.{
  four-pow-suc, spread-suc, spread, spread_byte, spread-lt, spread-add, spread_wider, bit_or-spread,
  interleaved-spread,
}
use native.Mathlib.Nat.{pow-le-pow_right, mod-eq_of_lt}

-- The code that the documentation describes: a leading one, then the digits in turn.
pub morton_code : TileKey → ℕ
morton_code k = 2 ^ (2 * k.level) + (2 * spread k.level k.row + spread k.level k.column)

pub morton_code_lem :
    (k : TileKey)
    → morton_code k ≡ 2 ^ (2 * k.level) + (2 * spread k.level k.row + spread k.level k.column)
unfolding morton_code
morton_code_lem k = refl

byte : ℕ → ℕ → ℕ
byte x i = spread 8 (x / 2 ^ i % 256)

byte-lt : (x i : ℕ) → byte x i < 2 ^ 15
unfolding byte
byte-lt x i = omega (arith, spread-lt 8 (x / 2 ^ i % 256))

part-eq : (x i place : ℕ) → place < 50 → part x i place ≡ byte x i * 2 ^ place
unfolding byte
part-eq x i place h = ground (
  arith,
  bit_and_mask 8 (x / 2 ^ i),
  interleaved-spread (x / 2 ^ i % 256),
  fits,
  mod-eq_of_lt {n = byte x i * 2 ^ place} {m = 2 ^ 64},
)
  where
    fits : byte x i * 2 ^ place < 2 ^ 64
    fits = grind (
      arith,
      byte-lt x i,
      pow-le-pow_right {n = 2} (omega arith) {i = place} {j = 49} (omega arith),
    )

or_of_eq : (k q x r : ℕ) → x ≡ q * 2 ^ k → r < 2 ^ k → bit_or x r ≡ x + r
or_of_eq k q x r e h = rw e (bit_or_fields k q r h)

-- The bytes of a row, and those of a column.
or_row :
    (a b c d : ℕ)
    → a < 2 ^ 15
    → b < 2 ^ 15
    → c < 2 ^ 15
    → d < 2 ^ 15
    → bit_or (bit_or (bit_or (a * 2 ^ 49) (b * 2 ^ 33)) (c * 2 ^ 17)) (d * 2 ^ 1)
      ≡ 2 * (a * 2 ^ 48 + b * 2 ^ 32 + c * 2 ^ 16 + d)
or_row a b c d ha hb hc hd =
    let x : ℕ = bit_or (a * 2 ^ 49) (b * 2 ^ 33) in
    let ex : x ≡ (a * 2 ^ 16 + b) * 2 ^ 33 =
      omega (arith, or_of_eq 49 a (a * 2 ^ 49) (b * 2 ^ 33) refl (omega arith)) in
    let y : ℕ = bit_or x (c * 2 ^ 17) in
    let ey : y ≡ (a * 2 ^ 32 + b * 2 ^ 16 + c) * 2 ^ 17 =
      omega (arith, or_of_eq 33 (a * 2 ^ 16 + b) x (c * 2 ^ 17) ex (omega arith)) in
    omega (arith, or_of_eq 17 (a * 2 ^ 32 + b * 2 ^ 16 + c) y (d * 2 ^ 1) ey (omega arith))

or_column :
    (a b c d : ℕ)
    → a < 2 ^ 15
    → b < 2 ^ 15
    → c < 2 ^ 15
    → d < 2 ^ 15
    → bit_or (bit_or (bit_or (a * 2 ^ 48) (b * 2 ^ 32)) (c * 2 ^ 16)) (d * 2 ^ 0)
      ≡ a * 2 ^ 48 + b * 2 ^ 32 + c * 2 ^ 16 + d
or_column a b c d ha hb hc hd =
    let x : ℕ = bit_or (a * 2 ^ 48) (b * 2 ^ 32) in
    let ex : x ≡ (a * 2 ^ 16 + b) * 2 ^ 32 =
      omega (arith, or_of_eq 48 a (a * 2 ^ 48) (b * 2 ^ 32) refl (omega arith)) in
    let y : ℕ = bit_or x (c * 2 ^ 16) in
    let ey : y ≡ (a * 2 ^ 32 + b * 2 ^ 16 + c) * 2 ^ 16 =
      omega (arith, or_of_eq 32 (a * 2 ^ 16 + b) x (c * 2 ^ 16) ex (omega arith)) in
    omega (arith, or_of_eq 16 (a * 2 ^ 32 + b * 2 ^ 16 + c) y (d * 2 ^ 0) ey (omega arith))

byte_sum :
    (x : ℕ) → byte x 24 * 2 ^ 48 + byte x 16 * 2 ^ 32 + byte x 8 * 2 ^ 16 + byte x 0 ≡ spread 32 x
unfolding byte
byte_sum x = ground (
  arith,
  spread_byte x,
  spread_byte (x / 2 ^ 8),
  spread_byte (x / 2 ^ 16),
  spread_byte (x / 2 ^ 24),
  spread-add 8 24 x,
  spread-add 8 16 (x / 2 ^ 8),
  spread-add 8 8 (x / 2 ^ 8 / 2 ^ 8),
)

parts_of_row :
    (x : ℕ)
    → bit_or (bit_or (bit_or (part x 24 49) (part x 16 33)) (part x 8 17)) (part x 0 1)
      ≡ 2 * spread 32 x
parts_of_row x =
    rw
      (
        part-eq x 24 49 (omega arith),
        part-eq x 16 33 (omega arith),
        part-eq x 8 17 (omega arith),
        part-eq x 0 1 (omega arith),
      )
      (or_row (byte x 24) (byte x 16) (byte x 8) (byte x 0) (byte-lt x 24) (byte-lt x 16)
          (byte-lt x 8) (byte-lt x 0)
        ∙ ap (λ (t : ℕ). 2 * t) (byte_sum x))

parts_of_column :
    (x : ℕ)
    → bit_or (bit_or (bit_or (part x 24 48) (part x 16 32)) (part x 8 16)) (part x 0 0)
      ≡ spread 32 x
parts_of_column x =
    rw
      (
        part-eq x 24 48 (omega arith),
        part-eq x 16 32 (omega arith),
        part-eq x 8 16 (omega arith),
        part-eq x 0 0 (omega arith),
      )
      (or_column (byte x 24) (byte x 16) (byte x 8) (byte x 0) (byte-lt x 24) (byte-lt x 16)
          (byte-lt x 8) (byte-lt x 0)
        ∙ byte_sum x)

or_regroup :
    (h a b c d e f g i : ℕ)
    → bit_or (bit_or (bit_or (bit_or (bit_or (bit_or (bit_or (bit_or h a) b) c) d) e) f) g) i
      ≡ bit_or h (bit_or (bit_or (bit_or (bit_or a b) c) d) (bit_or (bit_or (bit_or e f) g) i))
or_regroup h a b c d e f g i = simp bit_or_assoc

digits_below :
    (k : TileKey)
    → IsValid k
    → 2 * spread k.level k.row + spread k.level k.column < 2 ^ (2 * k.level)
digits_below k v = omega (arith, spread-lt k.level k.row, spread-lt k.level k.column)

leading : (n : ℕ) → n < 32 → shl64 1 (2 * n) ≡ 1 * 2 ^ (2 * n)
leading n h =
    mod-eq_of_lt
      (omega (arith, pow-le-pow_right {n = 2} (omega arith) {i = 2 * n} {j = 63} (omega arith)))

-- ToQuadKey64() of every valid tile, by its table and shifts, is the Morton code by the definition: a
-- leading 1 and then, for each level, the digit of the row and the digit of the column.
pub to_quad_key64-morton_code : (k : TileKey) → IsValid k → to_quad_key64 k ≡ morton_code k
unfolding to_quad_key64 morton_code
to_quad_key64-morton_code k v =
    or_regroup _ _ _ _ _ _ _ _ _
    ∙ rw
        (
          parts_of_row k.row,
          parts_of_column k.column,
          bit_or-spread 32 32 k.row k.column,
          spread_wider k.level 32 k.row v.1 (omega arith),
          spread_wider k.level 32 k.column v.2 (omega arith),
          leading k.level v.0,
        )
        (bit_or_fields (2 * k.level) 1 _ (digits_below k v) ∙ omega arith)

-- A child's code is its parent's and one more digit.
pub morton_code-get_child :
    (k : TileKey) (i : ℕ)
    → IsValid k
    → k.level < 31
    → i < 4
    → morton_code (get_child k i) ≡ 4 * morton_code k + i
unfolding morton_code
morton_code-get_child k i v h b = rw (get_child_lem k i v h b) (
    omega (
      arith,
      ap (λ (t : ℕ). 2 ^ (2 * t)) {x = k.level + 1} {y = suc k.level} (omega arith),
      ap (λ (t : ℕ). spread t (k.row * 2 + i / 2)) {x = k.level + 1} {y = suc k.level}
          (omega arith),
      ap (λ (t : ℕ). spread t (k.column * 2 + i % 2)) {x = k.level + 1} {y = suc k.level}
          (omega arith),
      four-pow-suc k.level,
      spread-suc k.level (k.row * 2 + i / 2),
      spread-suc k.level (k.column * 2 + i % 2),
      ap (spread k.level) {x = (k.row * 2 + i / 2) / 2} {y = k.row} (omega arith),
      ap (spread k.level) {x = (k.column * 2 + i % 2) / 2} {y = k.column} (omega arith),
    ))
