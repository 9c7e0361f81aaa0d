-- ===== src/Utils/Url.antt =====
-- The class Url of olp-cpp-sdk-core/src/utils/Url.cpp: percent encoding. A character is a byte, a
-- number below 256; a `char` below zero is the byte that it is converted to, which falls on the same
-- side of every test. A read at the end of a string gives the character 0, as `operator[]` does.
pub mod Encoded
pub mod RoundTrip
pub mod Total
pub mod Tests
use here_olp_edge_sdk_cpp.Prelude.{
  ℕ, zero, suc, ◌+◌, ◌-◌, ◌*◌, ◌/◌, ◌%◌, ◌^◌, Bool, not, ◌&&◌, ◌||◌, Option, none, some, [], ◌∷◌,
  ◌++◌, length, get_or, ltb, leb, ◌==◌, if◌then◌else◌, add32,
}
use here_olp_edge_sdk_cpp.Prelude.Text.{Text}

abbrev pub in_range : ℕ → ℕ → ℕ → Bool
in_range low c high = leb low c && leb c high

-- `std::isxdigit`
unfoldable pub is_hex_digit : ℕ → Bool
is_hex_digit c = in_range b'0' c b'9' || (in_range b'a' c b'f' || in_range b'A' c b'F')

-- A hexadecimal digit of `std::hex`, and two of them.
unfoldable pub hex_value : ℕ → ℕ
hex_value c =
    if in_range b'0' c b'9' then c - b'0' else if in_range b'a' c b'f' then c - 87 else c - 55

abbrev pub hex_to_uint : ℕ → ℕ → ℕ
hex_to_uint high low = hex_value high * 16 + hex_value low

-- What `std::string::size() - 2` is for the size of an empty text, or one of one character.
abbrev pub minus_two : ℕ → ℕ
minus_two size = (size + 2 ^ 64 - 2) % 2 ^ 64

-- The loop of Decode(), on fuel; `read_idx` is an `unsigned int`.
unfoldable pub decode_from : ℕ → Text → ℕ → Text → Option Text
decode_from zero text read_idx out = none
decode_from (suc fuel) text read_idx out =
    let high = get_or text (add32 read_idx 1) 0 in
    let low = get_or text (add32 read_idx 2) 0 in
    let escaped =
      decode_from fuel text (add32 read_idx 3) (out ++ (hex_to_uint high low % 256) ∷ []) in
    let plus = decode_from fuel text (add32 read_idx 1) (out ++ b' ' ∷ []) in
    let copied = decode_from fuel text (add32 read_idx 1) (out ++ get_or text read_idx 0 ∷ []) in
    if not (ltb read_idx (length text))
    then some out
    else if ltb read_idx (minus_two (length text))
        && (get_or text read_idx 0 == b'%' && (is_hex_digit high && is_hex_digit low))
    then escaped
    else if get_or text read_idx 0 == b'+'
    then plus
    else copied

-- A round for each character, and one for the end.
unfoldable pub decode : Text → Option Text
decode text = decode_from (suc (length text)) text 0 []

unfoldable pub is_reserved : ℕ → Bool
is_reserved c =
    (ltb c b'a' || ltb b'z' c)
    && ((ltb c b'A' || ltb b'Z' c)
        && ((ltb c b'0' || ltb b'9' c)
            && (not (c == b'.') && (not (c == b'-') && (not (c == b'~') && not (c == b'_'))))))

-- A digit of `snprintf` with the format X.
unfoldable pub hex_digit : ℕ → ℕ
hex_digit d = if ltb d 10 then b'0' + d else 55 + d

unfoldable pub encode_char : ℕ → Text
encode_char c =
    if is_reserved c then b'%' ∷ hex_digit (c / 16) ∷ hex_digit (c % 16) ∷ [] else c ∷ []

-- The loop of Encode()
unfoldable pub encode_from : Text → Text → Text
encode_from out [] = out
encode_from out (c ∷ text) = encode_from (out ++ encode_char c) text

unfoldable pub encode : Text → Text
encode text = encode_from [] text
