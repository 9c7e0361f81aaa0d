-- ===== src/Utils/Url/Tests.antt =====
-- Url on concrete texts.
use here_olp_edge_sdk_cpp.Prelude.{◌≤◌, some, length, ◌≡◌, refl, arith}
use here_olp_edge_sdk_cpp.Prelude.Text.{Text, codes}
use here_olp_edge_sdk_cpp.Utils.Url.{
  is_hex_digit, hex_value, decode_from, decode, is_reserved, hex_digit, encode_char, encode_from,
  encode,
}
use here_olp_edge_sdk_cpp.Utils.Url.RoundTrip.{decode-encode}
use here_olp_edge_sdk_cpp.Utils.Url.Total.{decode_total}

encoded : encode (codes "a b/") ≡ codes "a%20b%2F"
unfolding encode encode_from encode_char hex_digit is_reserved
encoded = refl

-- A percent sign without two digits behind it is copied, and a plus becomes a space.
decoded : decode (codes "%4+%41%") ≡ some (codes "%4 A%")
unfolding decode decode_from is_hex_digit hex_value
decoded = refl

decode-encode_example : decode (encode (codes "a b")) ≡ some (codes "a b")
unfolding encode encode_from encode_char hex_digit is_reserved
decode-encode_example = decode-encode (codes "a b") (omega arith) (omega arith)

decode_total_example :
    (result : Text) × (decode (codes "%41") ≡ some result) × (length result ≤ length (codes "%41"))
decode_total_example = decode_total (codes "%41") (omega arith)
