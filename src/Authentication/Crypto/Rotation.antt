-- ===== src/Authentication/Crypto/Rotation.antt =====
-- The macros of Crypto.cpp against what FIPS 180-4 calls them: ROTR rotates a word.
use here_olp_edge_sdk_cpp.Prelude.{
  ℕ, ◌+◌, ◌-◌, ◌*◌, ◌/◌, ◌%◌, ◌^◌, ◌≤◌, ◌<◌, ◌≡◌, sym, ap, ◌∙◌, arith,
}
use here_olp_edge_sdk_cpp.Prelude.Bits.{bit_or_fields, bit_or_comm, pow-add}
use here_olp_edge_sdk_cpp.Authentication.Crypto.{rotr}
use native.Mathlib.Nat.{
  mod-lt, mod-add-div', add-mul-mod_self_right, mod-eq_of_lt, div-lt_iff_lt-mul, one-le-pow,
  add-mul, mul_assoc,
}

-- ROTR(x, n) of a word moves its low `n` bits above the others: it is x / 2 ^ n, which is below
-- 2 ^ (32 - n), and the remainder in the place of the high bits, for every count up to 32.
rotr_fields : (x n : ℕ) → x < 2 ^ 32 → n ≤ 32 → rotr x n ≡ x % 2 ^ n * 2 ^ (32 - n) + x / 2 ^ n
unfolding rotr
rotr_fields x n h k =
    let whole : n + (32 - n) ≡ 32 = omega arith in
    let power : 2 ^ n * 2 ^ (32 - n) ≡ 2 ^ 32 = sym (pow-add n (32 - n)) ∙ ap (λ t. 2 ^ t) whole in
    let positive : 1 ≤ 2 ^ n = one-le-pow n 2 (omega arith) in
    let positive' : 1 ≤ 2 ^ (32 - n) = one-le-pow (32 - n) 2 (omega arith) in
    let high : x / 2 ^ n < 2 ^ (32 - n) = (div-lt_iff_lt-mul positive).1 (grind arith) in
    let low : x % 2 ^ n < 2 ^ n = mod-lt x positive in
    let within : x % 2 ^ n * 2 ^ (32 - n) < 2 ^ 32 = grind arith in
    let sum : x * 2 ^ (32 - n) ≡ x % 2 ^ n * 2 ^ (32 - n) + x / 2 ^ n * 2 ^ 32 =
      ap (λ t. t * 2 ^ (32 - n)) (sym (mod-add-div' x (2 ^ n)))
      ∙ add-mul (x % 2 ^ n) (x / 2 ^ n * 2 ^ n) (2 ^ (32 - n))
      ∙ ap (λ t. x % 2 ^ n * 2 ^ (32 - n) + t)
          (mul_assoc (x / 2 ^ n) (2 ^ n) (2 ^ (32 - n)) ∙ ap (λ t. x / 2 ^ n * t) power) in
    let shifted : x * 2 ^ (32 - n) % 2 ^ 32 ≡ x % 2 ^ n * 2 ^ (32 - n) =
      ap (λ t. t % 2 ^ 32) sum
      ∙ add-mul-mod_self_right (x % 2 ^ n * 2 ^ (32 - n)) (x / 2 ^ n) (2 ^ 32)
      ∙ mod-eq_of_lt within in
    rw (shifted, bit_or_comm (x / 2 ^ n) (x % 2 ^ n * 2 ^ (32 - n)))
      (bit_or_fields (32 - n) (x % 2 ^ n) (x / 2 ^ n) high)
