-- ===== src/Authentication/Crypto/Tests.antt =====
-- SHA-256 and HMAC-SHA-256 of known messages.
use here_olp_edge_sdk_cpp.Prelude.{ℕ, ◌+◌, ◌*◌, ◌/◌, some, ◌>>=◌, List, [], ◌∷◌, ◌≡◌, refl, length}
use here_olp_edge_sdk_cpp.Prelude.Text.{codes}
use here_olp_edge_sdk_cpp.Authentication.Crypto.{
  rotr, sha256_ch, sha256_maj, sha256_sum0, sha256_sum1, sha256_sigma0, sha256_sigma1, sha256_k,
  load_word, load_words, next_word, extend_words, compress, compress_rounds, add_hash,
  sha256_transform, fill, length_bytes, chunks_to_process, transform_whole, transform_each,
  word_bytes, hash_bytes, sha256, hmac_key, xor_key, hmac_sha256, sha256_init,
}
use here_olp_edge_sdk_cpp.Authentication.Crypto.Blocks.{hash_blocks}
use here_olp_edge_sdk_cpp.Authentication.Crypto.Padding.{padded, sha256-padded}
use here_olp_edge_sdk_cpp.Authentication.Crypto.Digest.{IsDigest}
use here_olp_edge_sdk_cpp.Authentication.Crypto.Hmac.{hmac_sha256-IsDigest}

sha256_abc :
    sha256 (codes "abc")
    ≡ some (
        0xba ∷ 0x78 ∷ 0x16 ∷ 0xbf ∷ 0x8f ∷ 0x01 ∷ 0xcf ∷ 0xea ∷ 0x41 ∷ 0x41 ∷ 0x40 ∷ 0xde ∷ 0x5d
        ∷ 0xae ∷ 0x22 ∷ 0x23 ∷ 0xb0 ∷ 0x03 ∷ 0x61 ∷ 0xa3 ∷ 0x96 ∷ 0x17 ∷ 0x7a ∷ 0x9c ∷ 0xb4 ∷ 0x10
        ∷ 0xff ∷ 0x61 ∷ 0xf2 ∷ 0x00 ∷ 0x15 ∷ 0xad ∷ [])
unfolding rotr sha256_ch sha256_maj sha256_sum0 sha256_sum1 sha256_sigma0 sha256_sigma1 sha256_k
    load_word load_words next_word extend_words compress compress_rounds add_hash sha256_transform
    fill length_bytes chunks_to_process transform_whole transform_each word_bytes hash_bytes sha256
sha256_abc = refl

hmac_key_names :
    hmac_sha256 (codes "key") (codes "The quick brown fox jumps over the lazy dog")
    ≡ some (
        0xf7 ∷ 0xbc ∷ 0x83 ∷ 0xf4 ∷ 0x30 ∷ 0x53 ∷ 0x84 ∷ 0x24 ∷ 0xb1 ∷ 0x32 ∷ 0x98 ∷ 0xe6 ∷ 0xaa
        ∷ 0x6f ∷ 0xb1 ∷ 0x43 ∷ 0xef ∷ 0x4d ∷ 0x59 ∷ 0xa1 ∷ 0x49 ∷ 0x46 ∷ 0x17 ∷ 0x59 ∷ 0x97 ∷ 0x47
        ∷ 0x9d ∷ 0xbc ∷ 0x2d ∷ 0x1a ∷ 0x3c ∷ 0xd8 ∷ [])
unfolding rotr sha256_ch sha256_maj sha256_sum0 sha256_sum1 sha256_sigma0 sha256_sigma1 sha256_k
    load_word load_words next_word extend_words compress compress_rounds add_hash sha256_transform
    fill length_bytes chunks_to_process transform_whole transform_each word_bytes hash_bytes sha256
    hmac_key xor_key hmac_sha256
hmac_key_names = refl

sha256-padded_example :
    (sha256 (codes "abc") ≡ (
      hash_blocks ((length (codes "abc") + 8) / 64 + 1) (padded (codes "abc")) sha256_init >>= λ h.
      some (hash_bytes h)))
    × (length (padded (codes "abc")) ≡ 64 * ((length (codes "abc") + 8) / 64 + 1))
sha256-padded_example = sha256-padded (codes "abc")

hmac_sha256-IsDigest_example :
    (code : List ℕ) × (hmac_sha256 (codes "key") (codes "abc") ≡ some code) × IsDigest code
hmac_sha256-IsDigest_example = hmac_sha256-IsDigest (codes "key") (codes "abc")
