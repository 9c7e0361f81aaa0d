-- ===== src/Utils/Url/Encoded.antt =====
-- Url: what the output of Encode() is made of.
use here_olp_edge_sdk_cpp.Prelude.{
  ℕ, ◌*◌, ◌/◌, ◌%◌, ◌≤◌, ◌<◌, Bool, true, not, ◌||◌, inl, inr, Bool-cases, [], ◌∷◌, ◌++◌, length,
  length-append, ◌==◌, ◌≡◌, sym, ◌∙◌, arith,
}
use here_olp_edge_sdk_cpp.Prelude.Text.{Text}
use here_olp_edge_sdk_cpp.Utils.Url.{is_reserved, hex_digit, encode_char, encode_from, encode}
use mathlib.Core.List.{append_assoc, append-nil}

-- The characters of the text one after the other.
abbrev pub encode_each : Text → Text
encode_each [] = []
encode_each (c ∷ text) = encode_char c ++ encode_each text

encode_from-encode_each : (out text : Text) → encode_from out text ≡ out ++ encode_each text
unfolding encode_from
encode_from-encode_each out [] = sym (append-nil out)
encode_from-encode_each out (c ∷ text) =
    encode_from-encode_each (out ++ encode_char c) text
    ∙ append_assoc out (encode_char c) (encode_each text)

pub encode-encode_each : (text : Text) → encode text ≡ encode_each text
unfolding encode
encode-encode_each text = encode_from-encode_each [] text

abbrev pub All : (ℕ → Type 0) → Text → Type 0
All P [] = Unit
All P (c ∷ text) = P c × All P text

All-append : (P : ℕ → Type 0) (s t : Text) → All P s → All P t → All P (s ++ t)
All-append P [] t hs ht = ht
All-append P (c ∷ s) t (hc, hs) ht = (hc, All-append P s t hs ht)

-- A character that a URL may hold as it stands: unreserved, or the percent sign.
abbrev pub is_safe : ℕ → Bool
is_safe c = not (is_reserved c) || c == b'%'

hex_digit-is_safe : (d : ℕ) → d < 16 → is_safe (hex_digit d) ≡ true
unfolding hex_digit is_reserved
hex_digit-is_safe d h = ground arith

encode_char-is_safe :
    (c : ℕ) → c < 256 → All (λ b. is_safe b ≡ true) (encode_char c) × (length (encode_char c) ≤ 3)
unfolding encode_char
encode_char-is_safe c h = elim (Bool-cases (is_reserved c)) [
  | inl e ↦ rw e (
    (
      ground arith,
      (hex_digit-is_safe (c / 16) (omega arith), (hex_digit-is_safe (c % 16) (omega arith), tt)),
    ),
    omega arith,
  )
  | inr e ↦ rw e ((rw e, tt), omega arith)
]

encode_each-is_safe :
    (text : Text)
    → All (λ c. c < 256) text
    → All (λ b. is_safe b ≡ true) (encode_each text) × (length (encode_each text) ≤ 3 * length text)
encode_each-is_safe [] h = (tt, omega arith)
encode_each-is_safe (c ∷ text) (hc, hs) =
    let (first, size) = encode_char-is_safe c hc in
    let (others, sizes) = encode_each-is_safe text hs in
    (
      All-append (λ b. is_safe b ≡ true) (encode_char c) (encode_each text) first others,
      omega (arith, size, sizes, length-append (encode_char c) (encode_each text)),
    )

-- Every character of an encoded text is unreserved or a percent sign, and the text fits in the space
-- that Encode() reserves for it, three characters for each byte.
encode-is_safe :
    (text : Text)
    → All (λ c. c < 256) text
    → All (λ b. is_safe b ≡ true) (encode text) × (length (encode text) ≤ 3 * length text)
encode-is_safe text h = rw (encode-encode_each text) (encode_each-is_safe text h)
