-- ===== src/Geo/SubTiles/Selected.antt =====
-- SubTiles: the tiles that the loop sees are those that the bits of the mask select.
use here_olp_edge_sdk_cpp.Prelude.{
  ℕ, zero, suc, ◌+◌, ◌-◌, ◌*◌, ◌/◌, ◌%◌, ◌^◌, ◌≤◌, ◌<◌, true, false, not, inl, inr, Bool-cases,
  eq_cases, ltb, not-ltb→le, ◌==◌, ==-eq, ==-ne, if◌then◌else◌, List, [], ◌∷◌, ◌≡◌, refl, sym, ap,
  ◌∙◌, arith, bit_and, shl32, shr,
}
use here_olp_edge_sdk_cpp.Prelude.Bits.{bit_and_step, pow-add, bit_and-one}
use here_olp_edge_sdk_cpp.Geo.TileKey.{TileKey, from_row_column_level}
use here_olp_edge_sdk_cpp.Geo.SubTiles.{sub_tiles, full_mask, begin, walk, size}
use here_olp_edge_sdk_cpp.Geo.SubTiles.Children.{Fits, one_shl, deref_lem, size-sub_tiles}
use here_olp_edge_sdk_cpp.Geo.SubTiles.Walk.{is_shown, shown_from, walk-shown_from}
use Prim.Native.Nat.{min}
use native.Mathlib.Nat.{min-zero, pow-suc, one-le-pow, div-div-eq-div-mul, div-lt_iff_lt-mul}

-- The bit of the mask that stands for an index `l` levels below: each index has its own on the first
-- two levels; on a deeper one the indices are divided into sixteen runs of the same length.
abbrev pub bit_of : ℕ → ℕ → ℕ
bit_of l index = index / 4 ^ (l - 2)

-- The tile at an index, row by row.
abbrev pub tile_below : TileKey → ℕ → ℕ → TileKey
tile_below k l index =
    from_row_column_level (k.row * 2 ^ l + index / 2 ^ l) (k.column * 2 ^ l + index % 2 ^ l)
      (k.level + l)

-- The tiles from an index on, `left` of them, without those whose bit of the mask is 0.
abbrev pub selected : TileKey → ℕ → ℕ → ℕ → ℕ → List TileKey
selected k l mask zero index = []
selected k l mask (suc left) index =
    let rest = selected k l mask left (index + 1) in
    if mask / 2 ^ bit_of l index % 2 == 1 then tile_below k l index ∷ rest else rest

four_pow_two : (n : ℕ) → 2 ^ (n * 2) ≡ 4 ^ n
four_pow_two zero = refl
four_pow_two (suc n) =
    ap (λ m. 2 ^ m) {x = suc n * 2} {y = 2 + n * 2} (omega arith)
    ∙ pow-add 2 (n * 2)
    ∙ omega (arith, four_pow_two n, pow-suc 4 n)

four_pow : (n : ℕ) → 4 ^ n ≡ 2 ^ n * 2 ^ n
four_pow n =
    sym (four_pow_two n) ∙ ap (λ m. 2 ^ m) {x = n * 2} {y = n + n} (omega arith) ∙ pow-add n n

-- The half of a division by a power of two.
div_pow_suc : (m g : ℕ) → m / 2 ^ suc g ≡ m / 2 / 2 ^ g
div_pow_suc m g =
    ap (λ n. m / n) {x = 2 ^ suc g} {y = 2 * 2 ^ g} (omega (arith, pow-suc 2 g))
    ∙ sym (div-div-eq-div-mul m 2 (2 ^ g))

-- A number and a power of two.
bit_and_power : (g m : ℕ) → bit_and m (2 ^ g) ≡ m / 2 ^ g % 2 * 2 ^ g
bit_and_power zero m = omega (arith, bit_and-one m)
bit_and_power (suc g) m =
    let half : 2 ^ suc g / 2 ≡ 2 ^ g = omega (arith, pow-suc 2 g) in
    let even : 2 ^ suc g % 2 ≡ 0 = omega (arith, pow-suc 2 g) in
    let low : min (m % 2) (2 ^ suc g % 2) ≡ 0 = ap (min (m % 2)) even ∙ min-zero (m % 2) in
    let digit : m / 2 / 2 ^ g % 2 * 2 ^ g * 2 ≡ m / 2 ^ suc g % 2 * 2 ^ suc g =
      rw (div_pow_suc m g, pow-suc 2 g) (grind arith) in
    bit_and_step m (2 ^ suc g)
    ∙ ap (λ n. bit_and (m / 2) n * 2 + min (m % 2) (2 ^ suc g % 2)) half
    ∙ omega (arith, low, digit, bit_and_power g (m / 2))

-- A number whose digits are all 1.
ones_div : (g r : ℕ) → (2 ^ (g + suc r) - 1) / 2 ^ g ≡ 2 ^ suc r - 1
ones_div zero r =
    let same : ◌≡◌ {A = ℕ} (0 + suc r) (suc r) = omega arith in
    ap (λ n. (2 ^ n - 1) / 2 ^ 0) same ∙ omega arith
ones_div (suc g) r =
    let half : (2 ^ suc (g + suc r) - 1) / 2 ≡ 2 ^ (g + suc r) - 1 =
      omega (arith, pow-suc 2 (g + suc r)) in
    let same : ◌≡◌ {A = ℕ} (suc g + suc r) (suc (g + suc r)) = omega arith in
    ap (λ n. (2 ^ n - 1) / 2 ^ suc g) same
    ∙ div_pow_suc (2 ^ suc (g + suc r) - 1) g
    ∙ ap (λ n. n / 2 ^ g) half
    ∙ ones_div g r

full_bit : (g : ℕ) → g < 16 → full_mask / 2 ^ g % 2 ≡ 1
full_bit g h =
    let whole : g + suc (15 - g) ≡ 16 = omega (arith, h) in
    ap (λ n. (2 ^ n - 1) / 2 ^ g % 2) (sym whole)
    ∙ ap (λ n. n % 2) (ones_div g (15 - g))
    ∙ omega (arith, pow-suc 2 (15 - g), one-le-pow (15 - g) 2 (omega arith))

four_pow_shallow : (l : ℕ) → 4 ^ l ≤ 16 * 4 ^ (l - 2)
four_pow_shallow zero = omega arith
four_pow_shallow (suc zero) = omega arith
four_pow_shallow (suc (suc n)) =
    let level : suc (suc n) - 2 ≡ n = omega arith in
    omega (arith, ap (λ m. 4 ^ m) level, pow-suc 4 (suc n), pow-suc 4 n)

bit_of-lt : (l index : ℕ) → index < 4 ^ l → bit_of l index < 16
bit_of-lt l index h =
    (div-lt_iff_lt-mul (one-le-pow (l - 2) 4 (omega arith))).1
      (omega (arith, h, four_pow_shallow l))

-- The field `shift_`.
shift_lem : (l : ℕ) → l < 16 → (if ltb 2 l then shl32 (l - 2) 1 else 0) ≡ (l - 2) * 2
shift_lem l h = elim (Bool-cases (ltb 2 l)) [
  | inl e ↦ rw e (omega (arith, h))
  | inr e ↦ rw e (omega (arith, not-ltb→le 2 l e))
]

digit_test : (d p : ℕ) → 0 < p → d < 2 → not (d * p == 0) ≡ (d == 1)
digit_test zero p h small = ap not {x = 0 * p == 0} {y = true} (==-eq (0 * p) 0 (omega arith))
digit_test (suc zero) p h small =
    ap not {x = 1 * p == 0} {y = false} (==-ne (1 * p) 0 (λ e. absurd (omega (arith, e, h))))
digit_test (suc (suc d)) p h small = absurd (omega (arith, small))

-- Skip() stops at an index when its bit of the mask is set.
is_shown-bit_of :
    (k : TileKey) (l mask index : ℕ)
    → l < 16
    → index < 4 ^ l
    → is_shown (sub_tiles k l mask) index ≡ (mask / 2 ^ bit_of l index % 2 == 1)
unfolding sub_tiles
is_shown-bit_of k l mask index deep inside =
    let small = bit_of-lt l index inside in
    let place : shr index (if ltb 2 l then shl32 (l - 2) 1 else 0) ≡ bit_of l index =
      ap (shr index) (shift_lem l deep) ∙ ap (λ n. index / n) (four_pow_two (l - 2)) in
    let masked : bit_and mask (shl32 1 (shr index (if ltb 2 l then shl32 (l - 2) 1 else 0)))
        ≡ mask / 2 ^ bit_of l index % 2 * 2 ^ bit_of l index =
      ap (λ g. bit_and mask (shl32 1 g)) place
      ∙ ap (bit_and mask) (one_shl (bit_of l index) small)
      ∙ bit_and_power (bit_of l index) mask in
    let test : not (mask / 2 ^ bit_of l index % 2 * 2 ^ bit_of l index == 0)
        ≡ (mask / 2 ^ bit_of l index % 2 == 1) =
      digit_test (mask / 2 ^ bit_of l index % 2) (2 ^ bit_of l index)
        (one-le-pow (bit_of l index) 2 (omega arith)) (omega arith) in
    elim (eq_cases mask full_mask) [
      | inl full ↦
          let set : mask / 2 ^ bit_of l index % 2 ≡ 1 =
            ap (λ m. m / 2 ^ bit_of l index % 2) full ∙ full_bit (bit_of l index) small in
          rw (==-eq mask full_mask full) (sym (==-eq (mask / 2 ^ bit_of l index % 2) 1 set))
      | inr other ↦ rw (==-ne mask full_mask other, masked) test
    ]

-- The tiles that Skip() does not step over.
shown_from-selected :
    (k : TileKey) (l mask left index : ℕ)
    → Fits k l
    → index + left ≡ 4 ^ l
    → shown_from (sub_tiles k l mask) left index ≡ selected k l mask left index
shown_from-selected k l mask zero index fits e = refl
shown_from-selected k l mask (suc left) index fits e =
    let inside : index < 2 ^ l * 2 ^ l = omega (arith, e, four_pow l) in
    let rest = shown_from-selected k l mask left (index + 1) fits (omega (arith, e)) in
    rw (
      is_shown-bit_of k l mask index fits.2 (omega (arith, e)),
      deref_lem k l mask index fits inside,
      rest,
    )

-- A loop over the tiles `l` levels below a tile, with any mask, sees the tiles whose bit of the mask
-- is set, row by row, and no others. On the first two levels a tile's bit is the one at its index;
-- below them the indices are divided into sixteen runs of the same length, each with a bit of its
-- own. The tile is valid, its level and `l` stay below 32 together, and `l` below 16.
pub walk-selected :
    (k : TileKey) (l mask : ℕ)
    → Fits k l
    → walk (size (sub_tiles k l mask)) (sub_tiles k l mask) (begin (sub_tiles k l mask))
      ≡ selected k l mask (4 ^ l) 0
walk-selected k l mask fits =
    walk-shown_from (sub_tiles k l mask)
    ∙ ap (λ n. shown_from (sub_tiles k l mask) n 0)
        (size-sub_tiles k l mask fits.2 ∙ sym (four_pow l))
    ∙ shown_from-selected k l mask (4 ^ l) 0 fits (omega arith)
