-- ===== src/Geo/TileKey/Morton/Decode.antt =====
-- FromQuadKey64(), and that it and ToQuadKey64() undo one another.
use here_olp_edge_sdk_cpp.Prelude.{
  ℕ, zero, suc, ◌+◌, ◌*◌, ◌/◌, ◌%◌, ◌^◌, ◌≤◌, ◌<◌, ◌≡◌, refl, sym, ap, ◌∙◌, bit_or, shl32, arith,
  lt→ltb,
}
use here_olp_edge_sdk_cpp.Prelude.Bits.{
  bit_and-one, bit_and_two, bit_or_comm, bit_or_fields, pow-add,
}
use here_olp_edge_sdk_cpp.Geo.TileKey.{TileKey, IsValid, from_row_column_level}
use here_olp_edge_sdk_cpp.Geo.TileKey.Morton.{
  read_digit, read_digits, to_quad_key64, from_quad_key64,
}
use here_olp_edge_sdk_cpp.Geo.TileKey.Morton.Spread.{spread, spread-suc, spread-zero, four-pow-suc}
use here_olp_edge_sdk_cpp.Geo.TileKey.Morton.Encode.{morton_code_lem, to_quad_key64-morton_code}
use native.Mathlib.Nat.{pow-le-pow_right, mod-eq_of_lt, pow-suc, one-le-pow, suc-add}
use native.Mathlib.Decide.{dec_lt}
use mathlib.Core.Path.{ap₂}

-- A key that is not yet read to its end: the digits read so far are those of `r`.
pub or_mask : (x l : ℕ) → l < 32 → x < 2 ^ l → bit_or x (shl32 1 l) ≡ x + 2 ^ l
or_mask x l h b =
    rw
      (
        mod-eq_of_lt {n = 1 * 2 ^ l} {m = 2 ^ 32}
            (omega (arith, pow-le-pow_right {n = 2} (omega arith) {i = l} {j = 31} (omega arith))),
        bit_or_comm x (1 * 2 ^ l),
      )
      (bit_or_fields l 1 x b ∙ omega arith)

read_digit_lem :
    (q : ℕ) (r : TileKey)
    → r.level < 32
    → r.row < 2 ^ r.level
    → r.column < 2 ^ r.level
    → read_digit q r
      ≡ from_row_column_level
          (r.row + 2 ^ r.level * (q / 2 % 2))
          (r.column + 2 ^ r.level * (q % 2))
          (r.level + 1)
read_digit_lem q r h a b =
    ground (arith, bit_and-one q, bit_and_two q, or_mask r.row r.level, or_mask r.column r.level)

-- A code without its record: `n` digits of each number under a leading one.
abbrev pub code : ℕ → ℕ → ℕ → ℕ
code n row column = 2 ^ (2 * n) + (2 * spread n row + spread n column)

pub code-suc :
    (n row column : ℕ)
    → code (suc n) row column ≡ 4 * code n (row / 2) (column / 2) + 2 * (row % 2) + column % 2
code-suc n row column = omega (arith, spread-suc n row, spread-suc n column, four-pow-suc n)

-- One digit at place `l` and the digits above it.
digit_join : (l x v : ℕ) → x + 2 ^ l * (v % 2) + 2 ^ (l + 1) * (v / 2) ≡ x + 2 ^ l * v
digit_join l x v = omega (
  arith,
  ap (λ (t : ℕ). 2 ^ l * t) {x = v} {y = v % 2 + 2 * (v / 2)} (omega arith),
  ap (λ (t : ℕ). t * (v / 2)) (pow-add l 1),
)

pub digit-lt : (l x d : ℕ) → x < 2 ^ l → d < 2 → x + 2 ^ l * d < 2 ^ (l + 1)
digit-lt l x zero h b = omega (arith, pow-add l 1)
digit-lt l x (suc zero) h b = omega (arith, pow-add l 1)
digit-lt l x (suc (suc d)) h b = absurd (omega arith)

-- The key read after `r`.
read_digits_step :
    (fuel q : ℕ) (r : TileKey)
    → 1 < q
    → read_digits (suc fuel) q r ≡ read_digits fuel (q / 4) (read_digit q r)
unfolding read_digits
read_digits_step fuel q r h = ground (arith, lt→ltb 1 q h)

read_digits_stop : (fuel q : ℕ) (r : TileKey) → q ≤ 1 → read_digits fuel q r ≡ r
unfolding read_digits
read_digits_stop zero q r h = refl
read_digits_stop (suc fuel) q r h = ground arith

-- The digits of `row` and `column` under a leading one are read above those of `r`.
read_digits-code :
    (fuel n row column : ℕ) (r : TileKey)
    → n ≤ fuel
    → row < 2 ^ n
    → column < 2 ^ n
    → r.level + n ≤ 32
    → r.row < 2 ^ r.level
    → r.column < 2 ^ r.level
    → read_digits fuel (code n row column) r
      ≡ from_row_column_level
          (r.row + 2 ^ r.level * row)
          (r.column + 2 ^ r.level * column)
          (r.level + n)
read_digits-code fuel zero row column r f hr hc l a b =
    read_digits_stop fuel _ r (omega (arith, spread-zero row, spread-zero column)) ∙ ground arith
read_digits-code zero (suc n) row column r f hr hc l a b = elim f [ ]
read_digits-code (suc fuel) (suc n) row column r f hr hc l a b =
    let q : ℕ = code (suc n) row column in
    let cs : q ≡ 4 * code n (row / 2) (column / 2) + 2 * (row % 2) + column % 2 =
      code-suc n row column in
    let next : TileKey =
      from_row_column_level (r.row + 2 ^ r.level * (row % 2))
        (r.column + 2 ^ r.level * (column % 2)) (r.level + 1) in
    let read : read_digit q r ≡ next = read_digit_lem q r (omega arith) a b ∙ ground arith in
    let ih =
      read_digits-code fuel n (row / 2) (column / 2) next (omega arith) (omega (arith, pow-suc 2 n))
        (omega (arith, pow-suc 2 n)) (omega arith)
        (digit-lt r.level r.row (row % 2) a (omega arith))
        (digit-lt r.level r.column (column % 2) b (omega arith)) in
    read_digits_step fuel q r (omega (arith, one-le-pow (2 * n) 2))
    ∙ ap₂ (read_digits fuel) {x = q / 4} {y = code n (row / 2) (column / 2)} (omega arith) read
    ∙ ih
    ∙ ground (arith, digit_join r.level r.row row, digit_join r.level r.column column)

from_code :
    (n row column : ℕ)
    → n < 32
    → row < 2 ^ n
    → column < 2 ^ n
    → from_quad_key64 (code n row column) ≡ from_row_column_level row column n
unfolding from_quad_key64
from_code n row column h a b =
    read_digits-code 32 n row column (from_row_column_level 0 0 0) (omega arith) a b (omega arith)
      (omega arith) (omega arith)
    ∙ ground arith

-- FromQuadKey64() of ToQuadKey64() of a valid tile is the tile.
pub from-to_quad_key64 : (k : TileKey) → IsValid k → from_quad_key64 (to_quad_key64 k) ≡ k
from-to_quad_key64 k v =
    ap from_quad_key64 (to_quad_key64-morton_code k v ∙ morton_code_lem k)
    ∙ from_code k.level k.row k.column v.0 v.1 v.2

-- Every number with `2 * n + 1` binary digits is a code.
code_split :
    (n q : ℕ)
    → 2 ^ (2 * n) ≤ q
    → q < 2 * 2 ^ (2 * n)
    → (row : ℕ) × (column : ℕ) × (row < 2 ^ n) × (column < 2 ^ n) × (q ≡ code n row column)
code_split zero q lo hi = (0, 0, omega arith, omega arith, omega (arith, spread-zero 0))
code_split (suc n) q lo hi =
    let (row, column, a, b, e) =
      code_split n (q / 4) (omega (arith, four-pow-suc n)) (omega (arith, four-pow-suc n)) in
    let r : ℕ = 2 * row + q / 2 % 2 in
    let c : ℕ = 2 * column + q % 2 in
    let half_r : r / 2 ≡ row = omega arith in
    let half_c : c / 2 ≡ column = omega arith in
    (
      r,
      c,
      omega (arith, pow-suc 2 n),
      omega (arith, pow-suc 2 n),
      omega (arith, code-suc n r c, e, ap₂ (code n) half_r half_c),
    )

-- FromQuadKey64() of a number with `2 * n + 1` binary digits, for an `n` below 32, is a valid tile on
-- level `n`, and ToQuadKey64() of it is the number.
to-from_quad_key64 :
    (n q : ℕ)
    → n < 32
    → 2 ^ (2 * n) ≤ q
    → q < 2 * 2 ^ (2 * n)
    → IsValid (from_quad_key64 q)
      × ((from_quad_key64 q).level ≡ n)
      × (to_quad_key64 (from_quad_key64 q) ≡ q)
to-from_quad_key64 n q h lo hi =
    let (row, column, a, b, e) = code_split n q lo hi in
    let k : TileKey = from_row_column_level row column n in
    let read : from_quad_key64 q ≡ k = ap from_quad_key64 e ∙ from_code n row column h a b in
    rw read ((h, a, b), refl, to_quad_key64-morton_code k (h, a, b) ∙ morton_code_lem k ∙ sym e)

-- Fuel beyond 32 changes nothing for a 64-bit key.
read_digits_fuel :
    (f m q : ℕ) (r : TileKey) → q < 2 * 2 ^ (2 * f) → read_digits (f + m) q r ≡ read_digits f q r
read_digits_fuel zero m q r h =
    read_digits_stop (0 + m) q r (omega arith) ∙ sym (read_digits_stop 0 q r (omega arith))
read_digits_fuel (suc f) m q r h = elim (dec_lt 1 q) [
  | yes p ↦
      ap (λ (t : ℕ). read_digits t q r) (suc-add f m)
      ∙ read_digits_step (f + m) q r p
      ∙ read_digits_fuel f m (q / 4) (read_digit q r) (omega (arith, four-pow-suc f))
      ∙ sym (read_digits_step f q r p)
  | no p ↦
      read_digits_stop (suc f + m) q r (omega arith)
      ∙ sym (read_digits_stop (suc f) q r (omega arith))
]

-- The loop of FromQuadKey64() ends: for a 64-bit number, more rounds than 32 change nothing.
from_quad_key64_fuel :
    (m q : ℕ)
    → q < 2 ^ 64
    → read_digits (32 + m) q (from_row_column_level 0 0 0) ≡ from_quad_key64 q
unfolding from_quad_key64
from_quad_key64_fuel m q h = read_digits_fuel 32 m q _ (omega arith)
