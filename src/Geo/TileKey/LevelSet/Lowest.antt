-- ===== src/Geo/TileKey/LevelSet/Lowest.antt =====
-- The lowest and the highest level of a set of levels.
use here_olp_edge_sdk_cpp.Prelude.{
  ℕ, zero, suc, ◌+◌, ◌-◌, ◌*◌, ◌/◌, ◌%◌, ◌^◌, ◌≤◌, ◌<◌, ◌≡◌, ◌≢◌, refl, ==_iff, sym, ap, ◌∙◌, Bool,
  true, false, ◌&&◌, bit_and, arith, ◌==◌, eq_cases, inl, inr, ltb, Bool-cases, ltb→lt, not-ltb→le,
}
use here_olp_edge_sdk_cpp.Prelude.Bits.{bit_and_step}
use here_olp_edge_sdk_cpp.Geo.TileKey.LevelSet.{looked_up, min_level, log2_rounds, max_level}
use native.Mathlib.Nat.{
  pow-suc, one-le-pow, div-div-eq-div-mul, pow-le-pow_right, div-eq_of_lt, div-lt_iff_lt-mul,
}
use native.Mathlib.Decide.{dec_lt}

-- A number has no digit in common with what is left to the ones.
bit_and-complement : (w n : ℕ) → n < 2 ^ w → bit_and n (2 ^ w - 1 - n) ≡ 0
bit_and-complement zero n h =
    let none_left : n ≡ 0 = omega (arith, h) in ap (λ m. bit_and m (2 ^ 0 - 1 - m)) none_left
bit_and-complement (suc w) n h =
    let half : n / 2 < 2 ^ w = omega (arith, h, pow-suc 2 w) in
    let rest : (2 ^ suc w - 1 - n) / 2 ≡ 2 ^ w - 1 - n / 2 = omega (arith, h, pow-suc 2 w) in
    let both : bit_and (n / 2) ((2 ^ suc w - 1 - n) / 2) ≡ 0 =
      ap (bit_and (n / 2)) rest ∙ bit_and-complement w (n / 2) half in
    omega (arith, bit_and_step n (2 ^ suc w - 1 - n), both, h, pow-suc 2 w)

halved : (n j : ℕ) → n / 2 ^ suc j ≡ n / 2 / 2 ^ j
halved n j =
    let e : 2 ^ suc j ≡ 2 * 2 ^ j = omega (arith, pow-suc 2 j) in
    ap (λ m. n / m) e ∙ sym (div-div-eq-div-mul n 2 (2 ^ j))

-- The lowest digit of a number with at most `w` digits.
record Lowest (w n : ℕ) : Type 0 where
  place : ℕ
  isolated : bit_and n (2 ^ w - n) ≡ 2 ^ place
  is_set : n / 2 ^ place % 2 ≡ 1
  below : (j : ℕ) → j < place → n / 2 ^ j % 2 ≡ 0

lowest : (w n : ℕ) → 0 < n → n < 2 ^ w → Lowest w n
lowest zero n positive h = absurd (omega (arith, positive, h))
lowest (suc w) n positive h = elim (eq_cases (n % 2) 1) [
  | inl odd ↦ record {
    place = 0;
    isolated =
        (let half : n / 2 < 2 ^ w = omega (arith, h, pow-suc 2 w) in
          let rest : (2 ^ suc w - n) / 2 ≡ 2 ^ w - 1 - n / 2 = omega (arith, h, odd, pow-suc 2 w) in
          let both : bit_and (n / 2) ((2 ^ suc w - n) / 2) ≡ 0 =
            ap (bit_and (n / 2)) rest ∙ bit_and-complement w (n / 2) half in
          omega (arith, bit_and_step n (2 ^ suc w - n), both, h, odd, pow-suc 2 w));
    is_set = omega (arith, odd);
    below = λ j less. absurd (omega (arith, less));
  }
  | inr even ↦
      let k = lowest w (n / 2) (omega (arith, even, positive)) (omega (arith, h, pow-suc 2 w)) in
      record {
        place = suc k.place;
        isolated =
            (let rest : (2 ^ suc w - n) / 2 ≡ 2 ^ w - n / 2 = omega (arith, h, even, pow-suc 2 w) in
              let both : bit_and (n / 2) ((2 ^ suc w - n) / 2) ≡ 2 ^ k.place =
                ap (bit_and (n / 2)) rest ∙ k.isolated in
              omega (
                arith,
                bit_and_step n (2 ^ suc w - n),
                both,
                h,
                even,
                pow-suc 2 w,
                pow-suc 2 k.place,
              ));
        is_set = ap (λ m. m % 2) (halved n k.place) ∙ k.is_set;
        below = below_even n k.place even k.below;
      }
]
  where
    below_even :
        (n place : ℕ)
        → n % 2 ≢ 1
        → ((j : ℕ) → j < place → n / 2 / 2 ^ j % 2 ≡ 0)
        → (j : ℕ) → j < suc place
        → n / 2 ^ j % 2 ≡ 0
    below_even n place even before zero less = omega (arith, even)
    below_even n place even before (suc j) less =
        ap (λ m. m % 2) (halved n j) ∙ before j (omega (arith, less))

-- The table and the factor give the place of each digit of 32.
are_looked_up : ℕ → Bool
are_looked_up zero = true
are_looked_up (suc n) = looked_up (2 ^ n) == n && are_looked_up n

pub both_true : (a b : Bool) → (a && b) ≡ true → (a ≡ true) × (b ≡ true)
both_true true b h = (refl, h)
both_true false b h = cc

looked_up_below : (n l : ℕ) → are_looked_up n ≡ true → l < n → looked_up (2 ^ l) ≡ l
unfolding are_looked_up
looked_up_below zero l h less = absurd (omega (arith, less))
looked_up_below (suc n) l h less =
    let (here, others) = both_true (looked_up (2 ^ n) == n) (are_looked_up n) h in
    elim (eq_cases l n) [
      | inl same ↦
          ap (λ m. looked_up (2 ^ m)) same ∙ (==_iff (looked_up (2 ^ n)) n).0 here ∙ sym same
      | inr differ ↦ looked_up_below n l others (omega (arith, less, differ))
    ]

looked_up_lem : (l : ℕ) → l < 32 → looked_up (2 ^ l) ≡ l
unfolding are_looked_up
looked_up_lem l less = looked_up_below 32 l refl less

-- A place of a digit that is set is within the digits.
pub within : (n l m : ℕ) → n < 2 ^ m → n / 2 ^ l % 2 ≡ 1 → l < m
within n l m h is_set = elim (dec_lt l m) [
  | yes p ↦ p
  | no p ↦
      let big : 2 ^ m ≤ 2 ^ l =
        pow-le-pow_right {n = 2} (omega arith) {i = m} {j = l} (omega (arith, p)) in
      let none_left : n / 2 ^ l ≡ 0 = div-eq_of_lt (omega (arith, h, big)) in
      absurd (omega (arith, none_left, is_set))
]

-- GetMinTileKeyLevel(): the level of the set below which there is none.
pub min_level_lem :
    (levels : ℕ)
    → 0 < levels
    → levels < 2 ^ 32
    → (levels / 2 ^ min_level levels % 2 ≡ 1)
      × ((j : ℕ) → levels / 2 ^ j % 2 ≡ 1 → min_level levels ≤ j)
unfolding min_level
min_level_lem levels positive h =
    let k = lowest 64 levels positive (omega (arith, h)) in
    let rest : (2 ^ 64 - levels) % 2 ^ 64 ≡ 2 ^ 64 - levels = omega (arith, positive, h) in
    let found : min_level levels ≡ k.place =
      ap (λ m. looked_up (bit_and levels m)) rest
      ∙ ap looked_up k.isolated
      ∙ looked_up_lem k.place (within levels k.place 32 h k.is_set) in
    (
      ap (λ l. levels / 2 ^ l % 2) found ∙ k.is_set,
      λ j is_set. omega (arith, found, not_below levels k.place j k.below is_set),
    )
  where
    not_below :
        (n place j : ℕ) → ((i : ℕ) → i < place → n / 2 ^ i % 2 ≡ 0) → n / 2 ^ j % 2 ≡ 1 → place ≤ j
    not_below n place j none_before is_set = elim (dec_lt j place) [
      | yes p ↦ absurd (omega (arith, none_before j p, is_set))
      | no p ↦ omega (arith, p)
    ]

log2_rounds_lem : (rounds n : ℕ) → 0 < n → n < 2 ^ rounds → n / 2 ^ log2_rounds rounds n ≡ 1
unfolding log2_rounds
log2_rounds_lem zero n positive h = absurd (omega (arith, positive, h))
log2_rounds_lem (suc rounds) n positive h = elim (Bool-cases (ltb n 2)) [
  | inl one ↦ rw one (omega (arith, positive, ltb→lt n 2 one))
  | inr more ↦
      let many : 2 ≤ n = not-ltb→le n 2 more in
      let half =
        log2_rounds_lem rounds (n / 2) (omega (arith, many)) (omega (arith, h, pow-suc 2 rounds)) in
      let next : log2_rounds rounds (n / 2) + 1 ≡ suc (log2_rounds rounds (n / 2)) = omega arith in
      rw more (ap (λ l. n / 2 ^ l) next ∙ halved n (log2_rounds rounds (n / 2)) ∙ half)
]

-- GetMaxTileKeyLevel(): the level of the set above which there is none.
pub max_level_lem :
    (levels : ℕ)
    → 0 < levels
    → levels < 2 ^ 32
    → (levels / 2 ^ max_level levels % 2 ≡ 1)
      × ((j : ℕ) → levels / 2 ^ j % 2 ≡ 1 → j ≤ max_level levels)
max_level_lem levels positive h =
    let first = log2_rounds_lem 32 levels positive h in
    (omega (arith, first), λ j is_set. highest levels (max_level levels) j first is_set)
  where
    highest : (n top j : ℕ) → n / 2 ^ top ≡ 1 → n / 2 ^ j % 2 ≡ 1 → j ≤ top
    highest n top j first is_set =
        let twice : 2 * 2 ^ top ≡ 2 ^ suc top = omega (arith, pow-suc 2 top) in
        let small : n < 2 * 2 ^ top =
          (div-lt_iff_lt-mul (one-le-pow top 2 (omega arith))).0 (omega (arith, first)) in
        omega (arith, within n j (suc top) (omega (arith, small, twice)) is_set)
