-- ===== src/Utils/Url/Total.antt =====
-- Url: the loop of Decode() comes to its end on every text.
use here_olp_edge_sdk_cpp.Prelude.{
  ℕ, zero, suc, ◌+◌, ◌-◌, ◌%◌, ◌^◌, ◌≤◌, ◌<◌, ◌&&◌, inl, inr, Bool-cases, Option, some, [], ◌∷◌,
  ◌++◌, length, length-append, get_or, ltb, ltb→lt, le→not-ltb, ◌==◌, add32, ◌≡◌, arith,
}
use here_olp_edge_sdk_cpp.Prelude.Text.{Text}
use here_olp_edge_sdk_cpp.Utils.Url.{is_hex_digit, hex_to_uint, minus_two, decode_from, decode}
use native.Mathlib.Nat.{mod-eq_of_lt}

module _ (text : Text) (fits : length text + 3 < 2 ^ 32) where
  -- The result of a number of rounds: longer than `out` by at most the characters that are left.
  abbrev Ends : ℕ → Text → Option Text → Type 0
  Ends left out r = (result : Text) × (r ≡ some result) × (length result ≤ length out + left)

  Ends-later :
      (i i' n x : ℕ) (out : Text) (r : Option Text)
      → i' ≡ i + suc n
      → i < length text
      → Ends (length text - i') (out ++ x ∷ []) r
      → Ends (length text - i) out r
  Ends-later i i' n x out r e h (result, done, size) =
      (result, done, omega (arith, e, h, size, length-append out (x ∷ [])))

  decode_from-Ends :
      (fuel i : ℕ) (out : Text)
      → length text ≤ i + fuel
      → Ends (length text - i) out (decode_from (suc fuel) text i out)
  unfolding decode_from
  decode_from-Ends zero i out f =
      (out, rw (le→not-ltb (length text) i (omega (arith, f))), omega arith)
  decode_from-Ends (suc fuel) i out f = elim (Bool-cases (ltb i (length text))) [
    | inr over ↦ (out, rw over, omega arith)
    | inl inside ↦
        let within : i < length text = ltb→lt i (length text) inside in
        let one : add32 i 1 ≡ i + 1 = mod-eq_of_lt (omega (arith, within, fits)) in
        let three : add32 i 3 ≡ i + 3 = mod-eq_of_lt (omega (arith, within, fits)) in
        let rest = λ (i' n x : ℕ) (e : i' ≡ i + suc n).
          Ends-later i i' n x out (decode_from (suc fuel) text i' (out ++ x ∷ [])) e within
            (decode_from-Ends fuel i' (out ++ x ∷ []) (omega (arith, e, f))) in
        elim (Bool-cases (
          ltb i (minus_two (length text))
          && (get_or text i 0 == b'%'
              && (is_hex_digit (get_or text (add32 i 1) 0)
                  && is_hex_digit (get_or text (add32 i 2) 0))))) [
                    | inl escape ↦
                        rw (inside, escape)
                          (rest (add32 i 3) 2
                            (hex_to_uint (get_or text (add32 i 1) 0) (get_or text (add32 i 2) 0)
                              % 256)
                            (omega (arith, three)))
                    | inr plain ↦ elim (Bool-cases (get_or text i 0 == b'+')) [
                      | inl plus ↦
                          rw (inside, plain, plus) (rest (add32 i 1) 0 b' ' (omega (arith, one)))
                      | inr other ↦
                          rw (inside, plain, other)
                            (rest (add32 i 1) 0 (get_or text i 0) (omega (arith, one)))
                    ]
                  ]
  ]

  -- Decode() comes to its end on every text with a length below 2 ^ 32 - 3, within one round for each
  -- character and one more, and its result is not longer than the text.
  pub decode_total : (result : Text) × (decode text ≡ some result) × (length result ≤ length text)
  unfolding decode
  decode_total =
      let (result, done, size) = decode_from-Ends (length text) 0 [] (omega arith) in
      (result, done, omega (arith, size))
