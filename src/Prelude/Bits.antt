-- ===== src/Prelude/Bits.antt =====
-- `|` and `&` on the binary digits: the step from one digit to all, disjoint parts, low masks.
use Prim.Native.Nat.{min, max, digits, bit_and-bitwise, bit_or-bitwise}
use Prim.Native.Nat.{ℕ, zero, suc, ◌+◌, ◌-◌, ◌*◌, ◌/◌, ◌%◌, ◌^◌, ◌≤◌, ◌<◌, bit_and, bit_or}
use mathlib.Core.Path.{◌≡◌, refl, sym, ap, ◌∙◌}
use native.Mathlib.Omega.{arith}
use native.Mathlib.Nat.{
  pow-suc, one-le-pow, add-zero, add-suc, add_comm, zero-add, add-mul-div_right,
  add-mul-mod_self_right, div-eq_of_lt, mod-eq_of_lt, div-lt_iff_lt-mul,
}

-- The definition that both operations stand for: `rest` of the second number where the first has run
-- out, and else `digit` of the lowest digits. Its count matters only if it is too small.
module _ (rest : ℕ → ℕ) (digit : ℕ → ℕ → ℕ) where
  exhausted : (count y : ℕ) → digits rest digit count 0 y ≡ rest y
  exhausted zero y = refl
  exhausted (suc count) y = refl

  longer :
      (x y count more : ℕ)
      → x ≤ count
      → digits rest digit (count + more) x y ≡ digits rest digit count x y
  longer zero y count more fits = exhausted (count + more) y ∙ sym (exhausted count y)
  longer (suc x) y zero more fits = absurd (omega (arith, fits))
  longer (suc x) y (suc count) more fits =
      ap (λ c. digits rest digit c (suc x) y) {x = suc count + more} {y = suc (count + more)}
        (omega arith)
      ∙ ap (λ t. t * 2 + digit (suc x % 2) (y % 2))
          (longer (suc x / 2) (y / 2) count more (omega arith))

  -- The lowest digit, and the operation on the halves.
  lowest :
      (x y : ℕ)
      → digits rest digit (suc x) (suc x) y
        ≡ digits rest digit (suc x / 2) (suc x / 2) (y / 2) * 2 + digit (suc x % 2) (y % 2)
  lowest x y =
      ap (λ t. t * 2 + digit (suc x % 2) (y % 2))
        (ap (λ c. digits rest digit c (suc x / 2) (y / 2)) {x = x} {y = suc x / 2 + (x - suc x / 2)}
            (omega arith)
          ∙ longer (suc x / 2) (y / 2) (suc x / 2) (x - suc x / 2) (omega arith))

pub zero-bit_or : (b : ℕ) → bit_or 0 b ≡ b
zero-bit_or b = bit_or-bitwise 0 b

zero-bit_and : (b : ℕ) → bit_and 0 b ≡ 0
zero-bit_and b = bit_and-bitwise 0 b

pub bit_or_step : (a b : ℕ) → bit_or a b ≡ bit_or (a / 2) (b / 2) * 2 + max (a % 2) (b % 2)
bit_or_step zero b = omega (arith, zero-bit_or b, zero-bit_or (b / 2))
bit_or_step (suc x) y =
    bit_or-bitwise (suc x) y
    ∙ lowest (λ b. b) max x y
    ∙ ap (λ t. t * 2 + max (suc x % 2) (y % 2)) (sym (bit_or-bitwise (suc x / 2) (y / 2)))

pub bit_and_step : (x y : ℕ) → bit_and x y ≡ bit_and (x / 2) (y / 2) * 2 + min (x % 2) (y % 2)
bit_and_step zero y = omega (arith, zero-bit_and (y / 2), zero-bit_and y)
bit_and_step (suc x) y =
    bit_and-bitwise (suc x) y
    ∙ lowest (λ b. zero) min x y
    ∙ ap (λ t. t * 2 + min (suc x % 2) (y % 2)) (sym (bit_and-bitwise (suc x / 2) (y / 2)))

-- Induction along the halves of a number.
module _ (P : ℕ → Type 0) (base : P 0) (double : (a : ℕ) → P (suc a / 2) → P (suc a)) where
  halving_within : (bound a : ℕ) → a ≤ bound → P a
  halving_within bound zero fits = base
  halving_within zero (suc a) fits = absurd (omega (arith, fits))
  halving_within (suc bound) (suc a) fits =
      double a (halving_within bound (suc a / 2) (omega (arith, fits)))

  halving : (a : ℕ) → P a
  halving a = halving_within a a (omega arith)

pub bit_or-zero : (a : ℕ) → bit_or a 0 ≡ a
bit_or-zero =
    halving (λ a. bit_or a 0 ≡ a) (zero-bit_or 0)
      (λ a half. omega (arith, half, bit_or_step (suc a) 0))

bit_and-zero : (a : ℕ) → bit_and a 0 ≡ 0
bit_and-zero =
    halving (λ a. bit_and a 0 ≡ 0) (zero-bit_and 0)
      (λ a half. omega (arith, half, bit_and_step (suc a) 0))

pub bit_or_comm : (a b : ℕ) → bit_or a b ≡ bit_or b a
bit_or_comm =
    halving (λ a. (b : ℕ) → bit_or a b ≡ bit_or b a) (λ b. zero-bit_or b ∙ sym (bit_or-zero b))
      (λ a half b. omega (arith, half (b / 2), bit_or_step (suc a) b, bit_or_step b (suc a)))

or_halves :
    (a b : ℕ) → (bit_or a b / 2 ≡ bit_or (a / 2) (b / 2)) × (bit_or a b % 2 ≡ max (a % 2) (b % 2))
or_halves a b = omega (arith, bit_or_step a b)

pub bit_or_assoc : (a b c : ℕ) → bit_or (bit_or a b) c ≡ bit_or a (bit_or b c)
bit_or_assoc =
    halving (λ a. (b c : ℕ) → bit_or (bit_or a b) c ≡ bit_or a (bit_or b c))
      (λ b c. ap (λ (t : ℕ). bit_or t c) (zero-bit_or b) ∙ sym (zero-bit_or (bit_or b c)))
      (λ a half b c. ground (
        arith,
        half (b / 2) (c / 2),
        or_halves (suc a) b,
        or_halves b c,
        bit_or_step (bit_or (suc a) b) c,
        bit_or_step (suc a) (bit_or b c),
      ))

scaled-suc : (high n : ℕ) → high * 2 ^ suc n ≡ 2 * (high * 2 ^ n)
scaled-suc high n = omega (arith, ap (λ p. high * p) (pow-suc 2 n))

-- `(high << n) | low` is a sum where `low` has at most `n` digits.
pub bit_or_fields : (n high low : ℕ) → low < 2 ^ n → bit_or (high * 2 ^ n) low ≡ high * 2 ^ n + low
bit_or_fields zero high low narrow = ground (bit_or-zero high, arith)
bit_or_fields (suc n) high low narrow = ground (
  bit_or_fields n high (low / 2) (omega (pow-suc 2 n, arith)),
  bit_or_step (high * 2 ^ suc n) low,
  scaled-suc high n,
  pow-suc 2 n,
  arith,
)

bit_and_fields : (k q r : ℕ) → r < 2 ^ k → bit_and (q * 2 ^ k + r) (2 ^ k - 1) ≡ r
bit_and_fields zero q r fits = omega (arith, bit_and-zero (q * 1 + r))
bit_and_fields (suc k) q r fits = ground (
  arith,
  bit_and_step (q * 2 ^ suc k + r) (2 ^ suc k - 1),
  scaled-suc q k,
  pow-suc 2 k,
  one-le-pow k 2,
  bit_and_fields k q (r / 2) (omega (arith, pow-suc 2 k)),
)

-- A mask of the low `k` digits is the remainder by 2^k.
pub bit_and_mask : (k a : ℕ) → bit_and a (2 ^ k - 1) ≡ a % 2 ^ k
bit_and_mask k a = ground (arith, one-le-pow k 2, bit_and_fields k (a / 2 ^ k) (a % 2 ^ k))

pub bit_and-one : (a : ℕ) → bit_and a 1 ≡ a % 2
bit_and-one a = bit_and_mask 1 a

-- The second lowest digit.
pub bit_and_two : (a : ℕ) → bit_and a 2 ≡ a / 2 % 2 * 2
bit_and_two a = omega (arith, bit_and_step a 2, bit_and-one (a / 2))

-- Powers of two.
pub pow-add : (a b : ℕ) → 2 ^ (a + b) ≡ 2 ^ a * 2 ^ b
pow-add a zero = omega (arith, ap (λ (t : ℕ). 2 ^ t) (add-zero a))
pow-add a (suc b) = omega (
  arith,
  ap (λ (t : ℕ). 2 ^ t) (add-suc a b),
  pow-suc 2 (a + b),
  ap (λ (t : ℕ). 2 ^ a * t) (pow-suc 2 b),
  pow-add a b,
)

-- The two parts of a number that is put together of a high field and a low one of `l` digits.
pub high_field : (x d l : ℕ) → d < 2 ^ l → (x * 2 ^ l + d) / 2 ^ l ≡ x
high_field x d l small =
    ap (λ n. n / 2 ^ l) (add_comm (x * 2 ^ l) d)
    ∙ add-mul-div_right d x (one-le-pow l 2 (omega arith))
    ∙ ap (λ n. n + x) (div-eq_of_lt small)
    ∙ zero-add x

pub low_field : (x d l : ℕ) → d < 2 ^ l → (x * 2 ^ l + d) % 2 ^ l ≡ d
low_field x d l small =
    ap (λ n. n % 2 ^ l) (add_comm (x * 2 ^ l) d)
    ∙ add-mul-mod_self_right d x (2 ^ l)
    ∙ mod-eq_of_lt small

pub fields_lt : (x d m l : ℕ) → x < 2 ^ m → d < 2 ^ l → x * 2 ^ l + d < 2 ^ (m + l)
fields_lt x d m l narrow small =
    let high : (x * 2 ^ l + d) / 2 ^ l < 2 ^ m = omega (arith, high_field x d l small, narrow) in
    omega (arith, pow-add m l, (div-lt_iff_lt-mul (one-le-pow l 2 (omega arith))).0 high)
