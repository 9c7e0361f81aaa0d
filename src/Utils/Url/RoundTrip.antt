-- ===== src/Utils/Url/RoundTrip.antt =====
-- Url: Decode() undoes Encode().
use here_olp_edge_sdk_cpp.Prelude.{
  ℕ, zero, suc, ◌+◌, ◌*◌, ◌/◌, ◌%◌, ◌^◌, ◌≤◌, ◌<◌, true, false, inl, inr, Bool-cases, some, [], ◌∷◌,
  ◌++◌, length, length-append, get_or, get_or-drop, drop, drop-drop, drop-append, ltb, lt→ltb,
  le→not-ltb, ◌==◌, add32, ◌≡◌, sym, ap, ◌∙◌, arith,
}
use here_olp_edge_sdk_cpp.Prelude.Text.{Text}
use here_olp_edge_sdk_cpp.Utils.Url.{
  is_hex_digit, hex_value, minus_two, decode_from, decode, is_reserved, hex_digit, encode_char,
  encode,
}
use here_olp_edge_sdk_cpp.Utils.Url.Encoded.{encode_each, encode-encode_each, All}
use mathlib.Core.List.{append_assoc, append-nil}
use native.Mathlib.Nat.{mod-eq_of_lt}

hex_digit-is_hex_digit : (d : ℕ) → d < 16 → is_hex_digit (hex_digit d) ≡ true
unfolding hex_digit is_hex_digit
hex_digit-is_hex_digit d h = ground arith

hex_value-hex_digit : (d : ℕ) → d < 16 → hex_value (hex_digit d) ≡ d
unfolding hex_digit hex_value
hex_value-hex_digit d h = ground arith

-- What is decoded as it stands.
not-reserved : (c : ℕ) → is_reserved c ≡ false → ((c == b'%') ≡ false) × ((c == b'+') ≡ false)
unfolding is_reserved
not-reserved c h = ground arith

-- A character of the text that is left.
get_left :
    (text : Text) (i k : ℕ) (rest : Text)
    → drop i text ≡ rest
    → i + k < 2 ^ 32
    → get_or text (add32 i k) 0 ≡ get_or rest k 0
get_left text i k rest e h =
    ap (λ n. get_or text n 0) (mod-eq_of_lt h)
    ∙ sym (get_or-drop i text k 0)
    ∙ ap (λ r. get_or r k 0) e

get_here :
    (text : Text) (i : ℕ) (rest : Text) → drop i text ≡ rest → get_or text i 0 ≡ get_or rest 0 0
get_here text i rest e =
    let at : i + 0 ≡ i = omega arith in
    ap (λ n. get_or text n 0) (sym at) ∙ sym (get_or-drop i text 0 0) ∙ ap (λ r. get_or r 0 0) e

module _ (text : Text) (fits : length text < 2 ^ 32) where
  -- One round, on a character that stands for itself.
  decode_plain :
      (fuel i : ℕ) (out : Text) (c : ℕ) (rest : Text)
      → drop i text ≡ c ∷ rest
      → i < length text
      → is_reserved c ≡ false
      → decode_from (suc fuel) text i out ≡ decode_from fuel text (i + 1) (out ++ c ∷ [])
  unfolding decode_from
  decode_plain fuel i out c rest e h plain =
      let (no_percent, no_plus) = not-reserved c plain in
      let here : get_or text i 0 ≡ c = get_here text i (c ∷ rest) e in
      let after : add32 i 1 ≡ i + 1 = mod-eq_of_lt (omega (arith, h, fits)) in
      elim (Bool-cases (ltb i (minus_two (length text)))) [
        | inl early ↦ rw (lt→ltb i (length text) h, early, here, no_percent, no_plus, after)
        | inr late ↦ rw (lt→ltb i (length text) h, late, here, no_plus, after)
      ]

  -- One round, on an escape.
  decode_escape :
      (fuel i : ℕ) (out : Text) (c : ℕ) (rest : Text)
      → drop i text ≡ b'%' ∷ hex_digit (c / 16) ∷ hex_digit (c % 16) ∷ rest
      → i + 3 ≤ length text
      → c < 256
      → decode_from (suc fuel) text i out ≡ decode_from fuel text (i + 3) (out ++ c ∷ [])
  unfolding decode_from
  decode_escape fuel i out c rest e h byte =
      let here : get_or text i 0 ≡ b'%' =
        get_here text i (b'%' ∷ hex_digit (c / 16) ∷ hex_digit (c % 16) ∷ rest) e in
      let high : get_or text (add32 i 1) 0 ≡ hex_digit (c / 16) =
        get_left text i 1 (b'%' ∷ hex_digit (c / 16) ∷ hex_digit (c % 16) ∷ rest) e
          (omega (arith, h, fits)) in
      let low : get_or text (add32 i 2) 0 ≡ hex_digit (c % 16) =
        get_left text i 2 (b'%' ∷ hex_digit (c / 16) ∷ hex_digit (c % 16) ∷ rest) e
          (omega (arith, h, fits)) in
      let after : add32 i 3 ≡ i + 3 = mod-eq_of_lt (omega (arith, h, fits)) in
      let early : ltb i (minus_two (length text)) ≡ true =
        lt→ltb i (minus_two (length text)) (omega (arith, h, fits)) in
      let value : (hex_value (hex_digit (c / 16)) * 16 + hex_value (hex_digit (c % 16))) % 256 ≡ c =
        rw (hex_value-hex_digit (c / 16) (omega arith), hex_value-hex_digit (c % 16) (omega arith))
          (omega arith) in
      rw (
        lt→ltb i (length text) (omega (arith, h)),
        early,
        here,
        high,
        low,
        hex_digit-is_hex_digit (c / 16) (omega arith),
        hex_digit-is_hex_digit (c % 16) (omega arith),
        after,
        value,
      )

  -- The rounds for one character of the text that was encoded.
  decode-encode_char :
      (fuel i : ℕ) (out : Text) (c : ℕ) (rest : Text)
      → drop i text ≡ encode_char c ++ rest
      → i + length (encode_char c) ≤ length text
      → c < 256
      → decode_from (suc fuel) text i out
        ≡ decode_from fuel text (i + length (encode_char c)) (out ++ c ∷ [])
  unfolding encode_char
  decode-encode_char fuel i out c rest e h byte = elim (Bool-cases (is_reserved c)) [
    | inl reserved ↦
        let chars : encode_char c ≡ b'%' ∷ hex_digit (c / 16) ∷ hex_digit (c % 16) ∷ [] =
          rw reserved in
        let size : length (encode_char c) ≡ 3 = ap length chars in
        decode_escape fuel i out c rest (e ∙ ap (λ s. s ++ rest) chars) (omega (arith, h, size))
          byte
        ∙ ap (λ n. decode_from fuel text (i + n) (out ++ c ∷ [])) (sym size)
    | inr plain ↦
        let chars : encode_char c ≡ c ∷ [] = rw plain in
        let size : length (encode_char c) ≡ 1 = ap length chars in
        decode_plain fuel i out c rest (e ∙ ap (λ s. s ++ rest) chars) (omega (arith, h, size))
          plain
        ∙ ap (λ n. decode_from fuel text (i + n) (out ++ c ∷ [])) (sym size)
  ]

  decode_at_end :
      (fuel i : ℕ) (out : Text) → length text ≤ i → decode_from (suc fuel) text i out ≡ some out
  unfolding decode_from
  decode_at_end fuel i out h = rw (le→not-ltb (length text) i h)

  decode_from-encode_each :
      (s : Text) (fuel i : ℕ) (out : Text)
      → drop i text ≡ encode_each s
      → i + length (encode_each s) ≡ length text
      → length s ≤ fuel
      → All (λ c. c < 256) s
      → decode_from (suc fuel) text i out ≡ some (out ++ s)
  decode_from-encode_each [] fuel i out e n f h =
      decode_at_end fuel i out (omega (arith, n)) ∙ ap some (sym (append-nil out))
  decode_from-encode_each (c ∷ s) zero i out e n f h = elim f [ ]
  decode_from-encode_each (c ∷ s) (suc fuel) i out e n f (hc, hs) =
      let size : length (encode_each (c ∷ s)) ≡ length (encode_char c) + length (encode_each s) =
        length-append (encode_char c) (encode_each s) in
      let left : drop (i + length (encode_char c)) text ≡ encode_each s =
        drop-drop i (length (encode_char c)) text
        ∙ ap (drop (length (encode_char c))) e
        ∙ drop-append (encode_char c) (encode_each s) in
      decode-encode_char (suc fuel) i out c (encode_each s) e (omega (arith, n, size)) hc
      ∙ decode_from-encode_each s fuel (i + length (encode_char c)) (out ++ c ∷ []) left
          (omega (arith, n, size)) (omega (arith, f)) hs
      ∙ ap some (append_assoc out (c ∷ []) s)

length-encode_char : (c : ℕ) → 1 ≤ length (encode_char c)
unfolding encode_char
length-encode_char c = elim (Bool-cases (is_reserved c)) [
  | inl e ↦ rw e (omega arith)
  | inr e ↦ rw e (omega arith)
]

length-encode_each : (s : Text) → length s ≤ length (encode_each s)
length-encode_each [] = omega arith
length-encode_each (c ∷ s) = omega (
  arith,
  length-encode_char c,
  length-encode_each s,
  length-append (encode_char c) (encode_each s),
)

-- Decode() gives back the text that was encoded, if its characters are bytes and its encoded form has
-- fewer than 2 ^ 32 of them.
pub decode-encode :
    (s : Text) → All (λ c. c < 256) s → length (encode s) < 2 ^ 32 → decode (encode s) ≡ some s
unfolding decode
decode-encode s h fits =
    let each : encode s ≡ encode_each s = encode-encode_each s in
    decode_from-encode_each (encode s) fits s (length (encode s)) 0 [] each
      (omega (arith, ap length each)) (omega (arith, length-encode_each s, ap length each)) h
