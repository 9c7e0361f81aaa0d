-- ===== src/Prelude/Decimal.antt =====
-- `std::to_string` and `std::stol` of a `long`, and that the second undoes the first.
use Prim.Native.Nat.{ℕ, zero, suc, ◌+◌, ◌-◌, ◌*◌, ◌/◌, ◌%◌, ◌^◌, ◌<◌}
use mathlib.Core.Path.{◌≡◌, sym, ap, ◌∙◌}
use mathlib.Core.Logic.{inl, inr}
use mathlib.Core.Bool.{Bool, true, false, ◌&&◌, ◌||◌}
use mathlib.Core.Option.{Option, none, some}
use mathlib.Core.List.{[], ◌∷◌, ◌++◌, append_assoc, append-nil}
use native.Mathlib.Omega.{arith}
use native.Mathlib.Nat.{pow-suc}
use here_olp_edge_sdk_cpp.Prelude.Tests.{
  ◌==◌, ltb, leb, if◌then◌else◌, Bool-cases, ltb→lt, lt→ltb, lt→not-leb,
}
use here_olp_edge_sdk_cpp.Prelude.Int.{ℤ, pos, negsuc}
use here_olp_edge_sdk_cpp.Prelude.Text.{Text, is_empty}

-- A number below ten to the power of the fuel.
digits : ℕ → ℕ → Text
digits zero n = []
digits (suc fuel) n =
    let more = digits fuel (n / 10) ++ (b'0' + n % 10) ∷ [] in
    if ltb n 10 then (b'0' + n) ∷ [] else more

-- A `long` has at most nineteen digits.
unfoldable pub to_string : ℤ → Text
unfolding digits
to_string (pos n) = digits 19 n
to_string (negsuc n) = b'-' ∷ digits 19 (n + 1)

abbrev is_digit : ℕ → Bool
is_digit c = leb b'0' c && leb c b'9'

-- The value of the digits that the text begins with, behind those that were read.
read_digits : ℕ → Text → ℕ
read_digits acc [] = acc
read_digits acc (c ∷ s) = if is_digit c then read_digits (acc * 10 + (c - b'0')) s else acc

-- `none` is an exception: no digit, or a value that is no `long`.
abbrev in_long : Bool → ℕ → Option ℤ
in_long false n = if ltb n (2 ^ 63) then some (pos n) else none
in_long true zero = some (pos zero)
in_long true (suc n) = if ltb n (2 ^ 63) then some (negsuc n) else none

abbrev read_number : Bool → Text → Option ℤ
read_number negative [] = none
read_number negative (c ∷ s) = if is_digit c then in_long negative (read_digits 0 (c ∷ s)) else none

abbrev read_signed : Text → Option ℤ
read_signed [] = none
read_signed (c ∷ s) =
    if c == b'-'
    then read_number true s
    else if c == b'+'
    then read_number false s
    else read_number false (c ∷ s)

abbrev is_space : ℕ → Bool
is_space c = c == b' ' || (leb 9 c && leb c 13)

abbrev skip_space : Text → Text
skip_space [] = []
skip_space (c ∷ s) = let rest = skip_space s in if is_space c then rest else c ∷ s

unfoldable pub stol : Text → Option ℤ
unfolding read_digits
stol s = read_signed (skip_space s)

-- An `unsigned long long`, which has at most twenty digits, as an output stream writes it.
unfoldable pub to_text : ℕ → Text
unfolding digits
to_text n = digits 20 n

abbrev in_ulonglong : Bool → ℕ → ℕ
in_ulonglong negative n =
    if leb (2 ^ 64) n then 2 ^ 64 - 1 else if negative then (2 ^ 64 - n) % 2 ^ 64 else n

abbrev read_unsigned : Text → ℕ
read_unsigned [] = 0
read_unsigned (c ∷ s) =
    if c == b'-'
    then in_ulonglong true (read_digits 0 s)
    else if c == b'+'
    then in_ulonglong false (read_digits 0 s)
    else in_ulonglong false (read_digits 0 (c ∷ s))

-- `std::strtoull` to the base ten: 0 without a digit, the largest number where the value is too large.
unfoldable pub strtoull : Text → ℕ
unfolding read_digits
strtoull s = read_unsigned (skip_space s)

digit_of : (n : ℕ) → n < 10 → is_digit (b'0' + n) ≡ true
digit_of n h = ground arith

read_one :
    (acc n : ℕ) (rest : Text)
    → n < 10
    → read_digits acc ((b'0' + n) ∷ rest) ≡ read_digits (acc * 10 + n) rest
unfolding read_digits
read_one acc n rest h = let e : b'0' + n - b'0' ≡ n = omega arith in rw (digit_of n h, e)

read_digits-digits :
    (fuel n : ℕ) (rest : Text)
    → n < 10 ^ fuel
    → read_digits 0 (digits fuel n ++ rest) ≡ read_digits n rest
unfolding digits read_digits
read_digits-digits zero n rest h = let e : n ≡ 0 = omega (arith, h) in rw e
read_digits-digits (suc fuel) n rest h = elim (Bool-cases (ltb n 10)) [
  | inl one ↦
      let start : 0 * 10 + n ≡ n = omega arith in
      rw one (read_one 0 n rest (ltb→lt n 10 one) ∙ ap (λ m. read_digits m rest) start)
  | inr more ↦
      let smaller : n / 10 < 10 ^ fuel = grind (arith, h, pow-suc 10 fuel) in
      let value : n / 10 * 10 + n % 10 ≡ n = omega arith in
      rw (more, append_assoc, read_digits-digits fuel (n / 10) ((b'0' + n % 10) ∷ rest) smaller)
        (read_one (n / 10) (n % 10) rest (omega arith) ∙ ap (λ m. read_digits m rest) value)
]

-- The digits of a number are at least one.
digits_first :
    (fuel n : ℕ) → (c : ℕ) × (s : Text) × (digits (suc fuel) n ≡ c ∷ s) × (is_digit c ≡ true)
unfolding digits
digits_first zero n = elim (Bool-cases (ltb n 10)) [
  | inl one ↦ (b'0' + n, [], rw one, digit_of n (ltb→lt n 10 one))
  | inr more ↦ (b'0' + n % 10, [], rw more, digit_of (n % 10) (omega arith))
]
digits_first (suc fuel) n = elim (Bool-cases (ltb n 10)) [
  | inl one ↦ (b'0' + n, [], rw one, digit_of n (ltb→lt n 10 one))
  | inr more ↦
      let (c, s, e, h) = digits_first fuel (n / 10) in
      (c, s ++ (b'0' + n % 10) ∷ [], rw more (ap (λ r. r ++ (b'0' + n % 10) ∷ []) e), h)
]

read_number_first :
    (negative : Bool) (c : ℕ) (s : Text)
    → is_digit c ≡ true
    → read_number negative (c ∷ s) ≡ in_long negative (read_digits 0 (c ∷ s))
read_number_first negative c s h = rw h

read_number-digits :
    (negative : Bool) (n : ℕ)
    → n < 10 ^ 19
    → read_number negative (digits 19 n) ≡ in_long negative n
unfolding read_digits
read_number-digits negative n h =
    let (c, s, e, d) = digits_first 18 n in
    let value : read_digits 0 (digits 19 n) ≡ n =
      ap (read_digits 0) (sym (append-nil (digits 19 n))) ∙ read_digits-digits 19 n [] h in
    let value' : read_digits 0 (c ∷ s) ≡ n = ap (read_digits 0) (sym e) ∙ value in
    ap (read_number negative) e ∙ read_number_first negative c s d ∙ ap (in_long negative) value'

-- A digit is neither a space nor a sign.
plain :
    (c : ℕ) (s : Text)
    → is_digit c ≡ true
    → read_signed (skip_space (c ∷ s)) ≡ read_number false (c ∷ s)
plain c s h = ground arith

-- A `long`.
abbrev pub IsLong : ℤ → Type 0
IsLong (pos n) = n < 2 ^ 63
IsLong (negsuc n) = n < 2 ^ 63

pub stol-to_string : (z : ℤ) → IsLong z → stol (to_string z) ≡ some z
unfolding stol to_string
stol-to_string (pos n) h =
    let (c, s, e, d) = digits_first 18 n in
    let signed : read_signed (skip_space (digits 19 n)) ≡ read_number false (digits 19 n) =
      ap (λ r. read_signed (skip_space r)) e ∙ plain c s d ∙ ap (read_number false) (sym e) in
    signed ∙ read_number-digits false n (omega (arith, h)) ∙ rw (lt→ltb n (2 ^ 63) h)
stol-to_string (negsuc n) h =
    let e : n + 1 ≡ suc n = omega arith in
    read_number-digits true (n + 1) (omega (arith, h)) ∙ rw (e, lt→ltb n (2 ^ 63) h)

plain_unsigned :
    (c : ℕ) (s : Text)
    → is_digit c ≡ true
    → read_unsigned (skip_space (c ∷ s)) ≡ in_ulonglong false (read_digits 0 (c ∷ s))
plain_unsigned c s h = ground arith

pub strtoull-to_text : (n : ℕ) → n < 2 ^ 64 → strtoull (to_text n) ≡ n
unfolding strtoull to_text
strtoull-to_text n h =
    let (c, s, e, d) = digits_first 19 n in
    let value : read_digits 0 (digits 20 n) ≡ n =
      ap (read_digits 0) (sym (append-nil (digits 20 n)))
      ∙ read_digits-digits 20 n [] (omega (arith, h)) in
    let small : leb (2 ^ 64) n ≡ false = lt→not-leb n (2 ^ 64) h in
    ap (λ r. read_unsigned (skip_space r)) e
    ∙ plain_unsigned c s d
    ∙ ap (λ r. in_ulonglong false (read_digits 0 r)) (sym e)
    ∙ ap (in_ulonglong false) value
    ∙ rw small

pub to_text-not_empty : (n : ℕ) → is_empty (to_text n) ≡ false
unfolding to_text is_empty
to_text-not_empty n = let (c, s, e, d) = digits_first 19 n in ap is_empty e
