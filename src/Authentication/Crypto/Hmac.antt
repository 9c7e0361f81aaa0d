-- ===== src/Authentication/Crypto/Hmac.antt =====
-- HMAC-SHA-256: its end on every input, and the keys that are longer than a block.
use here_olp_edge_sdk_cpp.Prelude.{
  ℕ, zero, suc, ◌+◌, ◌≤◌, ◌<◌, inl, inr, Bool-cases, some, ◌>>=◌, List, [], ◌∷◌, ◌++◌, length, leb,
  leb→le, le→leb, lt→not-leb, ◌≡◌, refl, arith, get_elem?_within, bit_xor,
}
use here_olp_edge_sdk_cpp.Authentication.Crypto.{fill, sha256, hmac_key, xor_key, hmac_sha256}
use here_olp_edge_sdk_cpp.Authentication.Crypto.Padding.{length-fill}
use here_olp_edge_sdk_cpp.Authentication.Crypto.Digest.{IsDigest, sha256-IsDigest}

hmac_key_within : (key : List ℕ) → (k0 : List ℕ) × (hmac_key key ≡ some k0) × (length k0 ≡ 64)
unfolding hmac_key
hmac_key_within key = elim (Bool-cases (leb (length key) 64)) [
  | inl short ↦ (fill 64 key, rw short, length-fill 64 key (leb→le (length key) 64 short))
  | inr long ↦
      let (digest, e, d) = sha256-IsDigest key in
      (fill 64 digest, rw (long, e), length-fill 64 digest (omega (arith, d.0)))
]

xor_key_within :
    (rounds i : ℕ) (k0 : List ℕ) (pad : ℕ)
    → i + rounds ≤ length k0
    → (bs : List ℕ) × (xor_key rounds i k0 pad ≡ some bs)
unfolding xor_key
xor_key_within zero i k0 pad h = ([], refl)
xor_key_within (suc rounds) i k0 pad h =
    let (b, e) = get_elem?_within k0 i (omega (arith, h)) in
    let (bs, es) = xor_key_within rounds (i + 1) k0 pad (omega (arith, h)) in
    (bit_xor b pad ∷ bs, rw (e, es))

-- HMAC-SHA-256 of any key and message comes to its end without a read out of bounds, and gives 32
-- bytes.
pub hmac_sha256-IsDigest :
    (key message : List ℕ) → (code : List ℕ) × (hmac_sha256 key message ≡ some code) × IsDigest code
unfolding hmac_sha256
hmac_sha256-IsDigest key message =
    let (k0, e0, size) = hmac_key_within key in
    let (inner, e1) = xor_key_within 64 0 k0 0x36 (omega (arith, size)) in
    let (hashed, e2, d2) = sha256-IsDigest (inner ++ message) in
    let (outer, e3) = xor_key_within 64 0 k0 0x5c (omega (arith, size)) in
    let (code, e4, d4) = sha256-IsDigest (outer ++ hashed) in (code, rw (e0, e1, e2, e3) e4, d4)

-- A key of more than 64 bytes gives the same code as its SHA-256 digest does as the key.
hmac_sha256_long_key :
    (key message : List ℕ)
    → 64 < length key
    → hmac_sha256 key message ≡ (sha256 key >>= λ digest. hmac_sha256 digest message)
unfolding hmac_sha256 hmac_key
hmac_sha256_long_key key message h =
    let (digest, e, d) = sha256-IsDigest key in
    rw (lt→not-leb 64 (length key) h, e, le→leb (length digest) 64 (omega (arith, d.0)))
