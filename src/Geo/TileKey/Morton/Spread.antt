-- ===== src/Geo/TileKey/Morton/Spread.antt =====
-- The digits of a number with a zero before each: the description that the table is held to.
use here_olp_edge_sdk_cpp.Prelude.{
  ℕ, zero, suc, ◌+◌, ◌-◌, ◌*◌, ◌/◌, ◌%◌, ◌^◌, ◌≤◌, ◌<◌, ◌≡◌, refl, sym, ap, ◌∙◌, Bool, true, ◌&&◌,
  ◌==◌, ==_iff, bit_or, arith,
}
use here_olp_edge_sdk_cpp.Prelude.Bits.{bit_or_step, pow-add, zero-bit_or, bit_or-zero}
use here_olp_edge_sdk_cpp.Geo.TileKey.Morton.{interleaved}
use native.Mathlib.Nat.{div-div-eq-div-mul, suc-add, pow-succ', div-eq_of_lt}

pub spread : ℕ → ℕ → ℕ
spread zero x = 0
spread (suc n) x = x % 2 + 4 * spread n (x / 2)

pub four-pow-suc : (n : ℕ) → 2 ^ (2 * suc n) ≡ 4 * 2 ^ (2 * n)
four-pow-suc n =
    ap (λ (t : ℕ). 2 ^ t) {x = 2 * suc n} {y = 2 + 2 * n} (omega arith) ∙ pow-add 2 (2 * n)

pub spread-lt : (n x : ℕ) → 3 * spread n x < 2 ^ (2 * n)
unfolding spread
spread-lt zero x = omega arith
spread-lt (suc n) x = omega (arith, spread-lt n (x / 2), four-pow-suc n)

spread_of_zero : (n : ℕ) → spread n 0 ≡ 0
unfolding spread
spread_of_zero zero = refl
spread_of_zero (suc n) = omega (arith, spread_of_zero n)

-- The low `m` digits, and the others.
pub spread-add : (m n x : ℕ) → spread (m + n) x ≡ spread m x + 2 ^ (2 * m) * spread n (x / 2 ^ m)
unfolding spread
spread-add zero n x = ground arith
spread-add (suc m) n x = omega (
  arith,
  ap (λ (t : ℕ). spread t x) (suc-add m n),
  spread-add m n (x / 2),
  ap (λ (t : ℕ). t * spread n (x / 2 ^ suc m)) (four-pow-suc m),
  ap (λ (t : ℕ). 2 ^ (2 * m) * spread n t)
      (div-div-eq-div-mul x 2 (2 ^ m) ∙ ap (λ (t : ℕ). x / t) (sym (pow-succ' 2 m))),
)

pub spread_wider : (m n x : ℕ) → x < 2 ^ m → m ≤ n → spread n x ≡ spread m x
spread_wider m n x h b = omega (
  arith,
  ap (λ (t : ℕ). spread t x) {x = n} {y = m + (n - m)} (omega arith),
  spread-add m (n - m) x,
  ap (λ (t : ℕ). 2 ^ (2 * m) * t) (ap (spread (n - m)) (div-eq_of_lt h) ∙ spread_of_zero (n - m)),
)

-- The digits of the two numbers fall in different places.
pub bit_or-spread :
    (m n x y : ℕ) → bit_or (2 * spread m x) (spread n y) ≡ 2 * spread m x + spread n y
unfolding spread
bit_or-spread zero n x y = omega (arith, zero-bit_or (spread n y))
bit_or-spread (suc m) zero x y = omega (arith, bit_or-zero (2 * spread (suc m) x))
bit_or-spread (suc m) (suc n) x y = ground (
  arith,
  bit_or_step (2 * spread (suc m) x) (spread (suc n) y),
  bit_or_step (spread (suc m) x) (2 * spread n (y / 2)),
  bit_or-spread m n (x / 2) (y / 2),
)

pub spread_byte : (x : ℕ) → spread 8 (x % 256) ≡ spread 8 x
unfolding spread
spread_byte x = omega arith

-- Whether `n` entries of a table, from entry `b` on, are the spreads of their indices.
spreads_from : ℕ → ℕ → Bool
spreads_from b zero = true
spreads_from b (suc n) = interleaved b == spread 8 b && spreads_from (b + 1) n

spreads_from-at :
    (b n i : ℕ) → spreads_from b n ≡ true → i < n → interleaved (b + i) == spread 8 (b + i) ≡ true
unfolding spreads_from
spreads_from-at b zero i all inside = absurd (omega (inside, arith))
spreads_from-at b (suc n) zero all inside = ground (all, arith)
spreads_from-at b (suc n) (suc i) all inside =
    ap (λ t. interleaved t == spread 8 t) {x = b + suc i} {y = (b + 1) + i} (omega arith)
    ∙ spreads_from-at (b + 1) n i (ground (all, arith)) (omega (inside, arith))

table_check : spreads_from 0 256 ≡ true
unfolding spreads_from interleaved spread
table_check = refl

-- Every entry of the table is the spread of its index.
pub interleaved-spread : (b : ℕ) → b < 256 → interleaved b ≡ spread 8 b
interleaved-spread b h = (==_iff _ _).0 (
    ap (λ t. interleaved t == spread 8 t) {x = b} {y = 0 + b} (omega arith)
    ∙ spreads_from-at 0 256 b table_check h)

pub spread-suc : (n x : ℕ) → spread (suc n) x ≡ x % 2 + 4 * spread n (x / 2)
unfolding spread
spread-suc n x = refl

pub spread-zero : (x : ℕ) → spread 0 x ≡ 0
unfolding spread
spread-zero x = refl
