-- ===== src/Geo/TileKey/QuadKey/RoundTrip.antt =====
-- FromQuadKey() reads what ToQuadKey() writes.
use here_olp_edge_sdk_cpp.Prelude.{
  ℕ, zero, suc, ◌+◌, ◌-◌, ◌*◌, ◌/◌, ◌%◌, ◌^◌, ◌<◌, ◌≡◌, refl, sym, ap, ◌∙◌, arith, List, [], ◌∷◌,
  get_or, length,
}
use here_olp_edge_sdk_cpp.Prelude.Bits.{pow-add, bit_and-one, bit_and_two}
use here_olp_edge_sdk_cpp.Geo.TileKey.{TileKey, IsValid, is_valid, from_row_column_level}
use here_olp_edge_sdk_cpp.Geo.TileKey.Morton.Decode.{or_mask, digit-lt, code, code-suc}
use here_olp_edge_sdk_cpp.Geo.TileKey.Morton.Spread.{four-pow-suc}
use here_olp_edge_sdk_cpp.Geo.TileKey.Morton.Encode.{morton_code, morton_code_lem}
use here_olp_edge_sdk_cpp.Geo.TileKey.QuadKey.{read_char, read_chars, to_quad_key, from_quad_key}
use here_olp_edge_sdk_cpp.Geo.TileKey.QuadKey.Digits.{
  digits_of, digits_front, to_quad_key-digits_of, length-to_quad_key,
}
use native.Mathlib.Nat.{
  mod-eq_of_lt, div-div-eq-div-mul, pow-suc, pow-succ', one-le-pow, mod-lt, add-mul-mod_self_left,
  div-add-mod,
}
use mathlib.Core.Path.{ap₂}
use native.Mathlib.Decide.{dec_lt}

abbrev bit : ℕ → ℕ → ℕ
bit x i = x / 2 ^ i % 2

mod-two-pow-suc : (x i : ℕ) → x % 2 ^ suc i ≡ x % 2 ^ i + 2 ^ i * bit x i
mod-two-pow-suc x i =
    ap (λ (t : ℕ). t % 2 ^ suc i) split
    ∙ add-mul-mod_self_left (low + 2 ^ i * bit x i) (2 ^ suc i) (x / 2 ^ i / 2)
    ∙ mod-eq_of_lt
        (omega (arith, digit-lt i low (bit x i) low_fits (omega arith), pow-add i 1, pow-suc 2 i))
  where
    low : ℕ
    low = x % 2 ^ i

    low_fits : low < 2 ^ i
    low_fits = mod-lt x (omega (arith, one-le-pow i 2))

    split : x ≡ low + 2 ^ i * bit x i + 2 ^ suc i * (x / 2 ^ i / 2)
    split = omega (
      arith,
      div-add-mod x (2 ^ i),
      ap (λ (t : ℕ). 2 ^ i * t) {x = x / 2 ^ i} {y = 2 * (x / 2 ^ i / 2) + bit x i} (omega arith),
      ap (λ (t : ℕ). t * (x / 2 ^ i / 2)) (pow-suc 2 i),
    )

bit-suc : (x i : ℕ) → bit x (suc i) ≡ bit (x / 2) i
bit-suc x i =
    ap (λ (t : ℕ). t % 2)
      (ap (λ (t : ℕ). x / t) (pow-succ' 2 i) ∙ sym (div-div-eq-div-mul x 2 (2 ^ i)))

-- Digit `j` of a code holds bit `j` of the row and of the column.
code_digit :
    (n row column j : ℕ)
    → j < n
    → code n row column / 2 ^ (2 * j) % 4 ≡ 2 * bit row j + bit column j
code_digit zero row column j h = elim h [ ]
code_digit (suc n) row column zero h = omega (arith, code-suc n row column)
code_digit (suc n) row column (suc j) h =
    ap (λ (t : ℕ). code (suc n) row column / t % 4) (four-pow-suc j)
    ∙ ap (λ (t : ℕ). t % 4) (sym (div-div-eq-div-mul (code (suc n) row column) 4 (2 ^ (2 * j))))
    ∙ ap (λ (t : ℕ). t / 2 ^ (2 * j) % 4) {x = code (suc n) row column / 4}
        {y = code n (row / 2) (column / 2)} (omega (arith, code-suc n row column))
    ∙ code_digit n (row / 2) (column / 2) j (omega arith)
    ∙ omega (arith, bit-suc row j, bit-suc column j)

get_or-digits_of :
    (n m j : ℕ) → j < n → get_or (digits_of n m) (n - j - 1) 0 ≡ m / 2 ^ (2 * j) % 4 + b'0'
get_or-digits_of zero m j h = elim h [ ]
get_or-digits_of (suc n) m j h = elim (dec_lt j n) [
  | yes p ↦
      ap (λ (t : ℕ). get_or (digits_of (suc n) m) t 0) {x = suc n - j - 1} {y = suc (n - j - 1)}
        (omega arith)
      ∙ ap (λ (s : List ℕ). get_or s (suc (n - j - 1)) 0) (digits_front n m)
      ∙ get_or-digits_of n m j p
  | no p ↦
      ap (λ (t : ℕ). get_or (digits_of (suc n) m) t 0) {x = suc n - j - 1} {y = 0} (omega arith)
      ∙ ap (λ (s : List ℕ). get_or s 0 0) (digits_front n m)
      ∙ ap (λ (t : ℕ). m / 2 ^ (2 * t) % 4 + b'0') {x = n} {y = j} (omega arith)
]

-- What a string says of the two numbers.
abbrev Reads : List ℕ → ℕ → ℕ → ℕ → Type 0
Reads s level row column =
    (j : ℕ) → j < level → get_or s (level - j - 1) 0 ≡ 2 * bit row j + bit column j + b'0'

read_char_lem :
    (s : List ℕ) (level row column i : ℕ)
    → Reads s level row column
    → i < level
    → level < 32
    → read_char s i (from_row_column_level (row % 2 ^ i) (column % 2 ^ i) level)
      ≡ from_row_column_level (row % 2 ^ suc i) (column % 2 ^ suc i) level
read_char_lem s level row column i reads h b = ground (
  arith,
  reads i h,
  bit_and-one (2 * bit row i + bit column i),
  bit_and_two (2 * bit row i + bit column i),
  or_mask (row % 2 ^ i) i,
  or_mask (column % 2 ^ i) i,
  mod-lt row {m = 2 ^ i},
  mod-lt column {m = 2 ^ i},
  one-le-pow i 2,
  mod-two-pow-suc row i,
  mod-two-pow-suc column i,
)

read_chars_lem :
    (rounds i : ℕ) (s : List ℕ) (level row column : ℕ)
    → Reads s level row column
    → rounds + i ≡ level
    → level < 32
    → read_chars rounds i s (from_row_column_level (row % 2 ^ i) (column % 2 ^ i) level)
      ≡ from_row_column_level (row % 2 ^ level) (column % 2 ^ level) level
unfolding read_chars
read_chars_lem zero i s level row column reads e b =
    ap (λ (t : ℕ). from_row_column_level (row % 2 ^ t) (column % 2 ^ t) level) (omega arith)
read_chars_lem (suc rounds) i s level row column reads e b =
    ap₂ (λ (t : ℕ) (r : TileKey). read_chars rounds t s r) {x = i + 1} {y = suc i} (omega arith)
      (read_char_lem s level row column i reads (omega arith) b)
    ∙ read_chars_lem rounds (suc i) s level row column reads (omega arith) b

to_quad_key-Reads :
    (k : TileKey) → IsValid k → 0 < k.level → Reads (to_quad_key k) k.level k.row k.column
to_quad_key-Reads k v h j below =
    ap (λ (s : List ℕ). get_or s (k.level - j - 1) 0) (to_quad_key-digits_of k v h)
    ∙ get_or-digits_of k.level (morton_code k) j below
    ∙ ap (λ (m : ℕ). m / 2 ^ (2 * j) % 4 + b'0') (morton_code_lem k)
    ∙ ap (λ (d : ℕ). d + b'0') (code_digit k.level k.row k.column j below)

read_all :
    (s : List ℕ) (k : TileKey)
    → IsValid k
    → length s ≡ k.level
    → Reads s k.level k.row k.column
    → read_chars (length s) 0 s (from_row_column_level 0 0 (length s % 2 ^ 32)) ≡ k
read_all s k v e reads =
    ap₂ (λ (n : ℕ) (r : TileKey). read_chars n 0 s r) e start
    ∙ read_chars_lem k.level 0 s k.level k.row k.column reads (omega arith) v.0
    ∙ ground (arith, mod-eq_of_lt v.1, mod-eq_of_lt v.2)
  where
    start :
        from_row_column_level 0 0 (length s % 2 ^ 32)
        ≡ from_row_column_level (k.row % 2 ^ 0) (k.column % 2 ^ 0) k.level
    start = ground arith

-- A string other than "" and "-" is read from its last character to its first.
from_Reads :
    (s : List ℕ) (k : TileKey)
    → IsValid k
    → 0 < k.level
    → length s ≡ k.level
    → Reads s k.level k.row k.column
    → from_quad_key s ≡ k
unfolding from_quad_key
from_Reads [] k v h e reads = absurd (omega arith)
from_Reads (c ∷ []) k v h e reads = ground (
  arith,
  reads 0 h,
  ap (λ (t : ℕ). get_or (c ∷ []) (t - 0 - 1) 0) e,
  read_all (c ∷ []) k v e reads,
)
from_Reads (c ∷ d ∷ s) k v h e reads = read_all (c ∷ d ∷ s) k v e reads

root_round : from_quad_key (to_quad_key (from_row_column_level 0 0 0)) ≡ from_row_column_level 0 0 0
unfolding from_quad_key to_quad_key is_valid
root_round = refl

root-eq : (k : TileKey) → IsValid k → k.level ≡ 0 → k ≡ from_row_column_level 0 0 0
root-eq k v h = ground (arith, ap (λ (t : ℕ). 2 ^ t) h)

-- FromQuadKey() of ToQuadKey() of a valid tile is the tile.
pub from-to_quad_key : (k : TileKey) → IsValid k → from_quad_key (to_quad_key k) ≡ k
from-to_quad_key k v = elim (dec_lt 0 k.level) [
  | yes p ↦ from_Reads (to_quad_key k) k v p (length-to_quad_key k v p) (to_quad_key-Reads k v p)
  | no p ↦
      let e : k ≡ from_row_column_level 0 0 0 = root-eq k v (omega arith) in
      ap (λ (j : TileKey). from_quad_key (to_quad_key j)) e ∙ root_round ∙ sym e
]
