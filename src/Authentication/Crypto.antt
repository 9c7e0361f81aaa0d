-- ===== src/Authentication/Crypto.antt =====
-- The class Crypto of olp-cpp-sdk-authentication/src/Crypto.cpp: SHA-256 and HMAC-SHA-256. A byte is a
-- number below 256, a word one below 2 ^ 32. The array of eight words that a transformation works on
-- is a record; every other array is a list, and `none` is a read out of bounds.
pub mod Blocks
pub mod Padding
pub mod Digest
pub mod Rotation
pub mod Hmac
pub mod Tests
use here_olp_edge_sdk_cpp.Prelude.{
  ℕ, zero, suc, ◌+◌, ◌-◌, ◌*◌, ◌/◌, ◌%◌, ◌^◌, Option, some, ◌>>=◌, List, [], ◌∷◌, ◌++◌, length,
  get_elem?, drop, replicate, ltb, leb, if◌then◌else◌, bit_and, bit_or, bit_xor, add32, shl32, shr,
}

-- `~x`
abbrev pub not32 : ℕ → ℕ
not32 x = 2 ^ 32 - 1 - x

unfoldable pub rotr : ℕ → ℕ → ℕ
rotr x n = bit_or (shr x n) (shl32 x (32 - n))

unfoldable pub sha256_ch : ℕ → ℕ → ℕ → ℕ
sha256_ch x y z = bit_xor (bit_and x y) (bit_and (not32 x) z)

unfoldable pub sha256_maj : ℕ → ℕ → ℕ → ℕ
sha256_maj x y z = bit_xor (bit_xor (bit_and x y) (bit_and x z)) (bit_and y z)

unfoldable pub sha256_sum0 : ℕ → ℕ
sha256_sum0 x = bit_xor (bit_xor (rotr x 2) (rotr x 13)) (rotr x 22)

unfoldable pub sha256_sum1 : ℕ → ℕ
sha256_sum1 x = bit_xor (bit_xor (rotr x 6) (rotr x 11)) (rotr x 25)

unfoldable pub sha256_sigma0 : ℕ → ℕ
sha256_sigma0 x = bit_xor (bit_xor (rotr x 7) (rotr x 18)) (shr x 3)

unfoldable pub sha256_sigma1 : ℕ → ℕ
sha256_sigma1 x = bit_xor (bit_xor (rotr x 17) (rotr x 19)) (shr x 10)

unfoldable pub sha256_k : List ℕ
sha256_k =
    0x428a2f98 ∷ 0x71374491 ∷ 0xb5c0fbcf ∷ 0xe9b5dba5 ∷ 0x3956c25b ∷ 0x59f111f1 ∷ 0x923f82a4
    ∷ 0xab1c5ed5 ∷ 0xd807aa98 ∷ 0x12835b01 ∷ 0x243185be ∷ 0x550c7dc3 ∷ 0x72be5d74 ∷ 0x80deb1fe
    ∷ 0x9bdc06a7 ∷ 0xc19bf174 ∷ 0xe49b69c1 ∷ 0xefbe4786 ∷ 0x0fc19dc6 ∷ 0x240ca1cc ∷ 0x2de92c6f
    ∷ 0x4a7484aa ∷ 0x5cb0a9dc ∷ 0x76f988da ∷ 0x983e5152 ∷ 0xa831c66d ∷ 0xb00327c8 ∷ 0xbf597fc7
    ∷ 0xc6e00bf3 ∷ 0xd5a79147 ∷ 0x06ca6351 ∷ 0x14292967 ∷ 0x27b70a85 ∷ 0x2e1b2138 ∷ 0x4d2c6dfc
    ∷ 0x53380d13 ∷ 0x650a7354 ∷ 0x766a0abb ∷ 0x81c2c92e ∷ 0x92722c85 ∷ 0xa2bfe8a1 ∷ 0xa81a664b
    ∷ 0xc24b8b70 ∷ 0xc76c51a3 ∷ 0xd192e819 ∷ 0xd6990624 ∷ 0xf40e3585 ∷ 0x106aa070 ∷ 0x19a4c116
    ∷ 0x1e376c08 ∷ 0x2748774c ∷ 0x34b0bcb5 ∷ 0x391c0cb3 ∷ 0x4ed8aa4a ∷ 0x5b9cca4f ∷ 0x682e6ff3
    ∷ 0x748f82ee ∷ 0x78a5636f ∷ 0x84c87814 ∷ 0x8cc70208 ∷ 0x90befffa ∷ 0xa4506ceb ∷ 0xbef9a3f7
    ∷ 0xc67178f2 ∷ []

-- Eight words, `hashValue` or `workingVar`.
pub record Hash : Type 0 where
  pub h0 : ℕ
  pub h1 : ℕ
  pub h2 : ℕ
  pub h3 : ℕ
  pub h4 : ℕ
  pub h5 : ℕ
  pub h6 : ℕ
  pub h7 : ℕ

abbrev pub sha256_init : Hash
sha256_init = record {
  h0 = 0x6a09e667;
  h1 = 0xbb67ae85;
  h2 = 0x3c6ef372;
  h3 = 0xa54ff53a;
  h4 = 0x510e527f;
  h5 = 0x9b05688c;
  h6 = 0x1f83d9ab;
  h7 = 0x5be0cd19;
}

-- One of the first sixteen words, from the bytes at `j`.
unfoldable pub load_word : List ℕ → ℕ → Option ℕ
load_word chunk j = do
  b0 ← get_elem? chunk j
  b1 ← get_elem? chunk (j + 1)
  b2 ← get_elem? chunk (j + 2)
  b3 ← get_elem? chunk (j + 3)
  some (bit_or (bit_or (bit_or (shl32 b0 24) (shl32 b1 16)) (shl32 b2 8)) b3)

-- The first loop of sha256Transform(), with `rounds` words to come.
unfoldable pub load_words : ℕ → List ℕ → ℕ → Option (List ℕ)
load_words zero chunk j = some []
load_words (suc rounds) chunk j = do
  word ← load_word chunk j
  words ← load_words rounds chunk (j + 4)
  some (word ∷ words)

unfoldable pub next_word : List ℕ → ℕ → Option ℕ
next_word w i = do
  w2 ← get_elem? w (i - 2)
  w7 ← get_elem? w (i - 7)
  w15 ← get_elem? w (i - 15)
  w16 ← get_elem? w (i - 16)
  some (add32 (add32 (add32 (sha256_sigma1 w2) w7) (sha256_sigma0 w15)) w16)

-- The second loop: the word `i` is written behind those before it.
unfoldable pub extend_words : ℕ → ℕ → List ℕ → Option (List ℕ)
extend_words zero i w = some w
extend_words (suc rounds) i w = do
  word ← next_word w i
  extend_words rounds (i + 1) (w ++ word ∷ [])

unfoldable pub compress : Hash → ℕ → ℕ → Hash
compress v k word =
    let t1 =
      add32 (add32 (add32 (add32 v.h7 (sha256_sum1 v.h4)) (sha256_ch v.h4 v.h5 v.h6)) k) word in
    let t2 = add32 (sha256_sum0 v.h0) (sha256_maj v.h0 v.h1 v.h2) in
    record {
      h0 = add32 t1 t2;
      h1 = v.h0;
      h2 = v.h1;
      h3 = v.h2;
      h4 = add32 v.h3 t1;
      h5 = v.h4;
      h6 = v.h5;
      h7 = v.h6;
    }

-- The loop over the constants, from `i` on.
unfoldable pub compress_rounds : ℕ → ℕ → List ℕ → Hash → Option Hash
compress_rounds zero i w v = some v
compress_rounds (suc rounds) i w v = do
  k ← get_elem? sha256_k i
  word ← get_elem? w i
  compress_rounds rounds (i + 1) w (compress v k word)

unfoldable pub add_hash : Hash → Hash → Hash
add_hash h v = record {
  h0 = add32 h.h0 v.h0;
  h1 = add32 h.h1 v.h1;
  h2 = add32 h.h2 v.h2;
  h3 = add32 h.h3 v.h3;
  h4 = add32 h.h4 v.h4;
  h5 = add32 h.h5 v.h5;
  h6 = add32 h.h6 v.h6;
  h7 = add32 h.h7 v.h7;
}

unfoldable pub sha256_transform : List ℕ → ℕ → Hash → Option Hash
sha256_transform current_chunk start_index hash_value = do
  first ← load_words 16 current_chunk start_index
  w ← extend_words 48 16 first
  v ← compress_rounds 64 0 w hash_value
  some (add_hash hash_value v)

-- The chunks behind the whole ones: a last one alone, or with one before it.
unfoldable pub fill : ℕ → List ℕ → List ℕ
fill size chunk = chunk ++ replicate (size - length chunk) 0

-- The last eight bytes: `(srcLength >> ((i - 1) * 8)) & 0xff`.
unfoldable pub length_bytes : ℕ → ℕ → List ℕ
length_bytes zero src_length = []
length_bytes (suc i) src_length = bit_and (shr src_length (i * 8)) 0xff ∷ length_bytes i src_length

unfoldable pub chunks_to_process : List ℕ → List (List ℕ)
chunks_to_process src =
    let rest = drop (length src / 64 * 64) src in
    let ending = length_bytes 8 (length src * 8 % 2 ^ 64) in
    if ltb (length src % 64) 56
    then (fill 56 (rest ++ 0x80 ∷ []) ++ ending) ∷ []
    else fill 64 (rest ++ 0x80 ∷ []) ∷ (fill 56 [] ++ ending) ∷ []

-- The loop over the whole chunks of the source, `i` of them done.
unfoldable pub transform_whole : ℕ → ℕ → List ℕ → Hash → Option Hash
transform_whole zero i src h = some h
transform_whole (suc rounds) i src h = do
  h' ← sha256_transform src (i * 64) h
  transform_whole rounds (i + 1) src h'

unfoldable pub transform_each : List (List ℕ) → Hash → Option Hash
transform_each [] h = some h
transform_each (chunk ∷ chunks) h = do h' ← sha256_transform chunk 0 h; transform_each chunks h'

-- The four bytes of a word in `ret`.
unfoldable pub word_bytes : ℕ → List ℕ
word_bytes value = shr value 24 % 256 ∷ shr value 16 % 256 ∷ shr value 8 % 256 ∷ value % 256 ∷ []

unfoldable pub hash_bytes : Hash → List ℕ
hash_bytes h =
    word_bytes h.h0
    ++ (word_bytes h.h1
        ++ (word_bytes h.h2
            ++ (word_bytes h.h3
                ++ (word_bytes h.h4 ++ (word_bytes h.h5 ++ (word_bytes h.h6 ++ word_bytes h.h7))))))

unfoldable pub sha256 : List ℕ → Option (List ℕ)
sha256 src = do
  h ← transform_whole (length src / 64) 0 src sha256_init
  h' ← transform_each (chunks_to_process src) h
  some (hash_bytes h')

-- Steps 1 to 3 of hmac_sha256()
unfoldable pub hmac_key : List ℕ → Option (List ℕ)
hmac_key key =
    let hashed = sha256 key >>= λ new_key. some (fill 64 new_key) in
    if leb (length key) 64 then some (fill 64 key) else hashed

-- The loops of the steps 4 and 7, from `i` on.
unfoldable pub xor_key : ℕ → ℕ → List ℕ → ℕ → Option (List ℕ)
xor_key zero i k0 pad = some []
xor_key (suc rounds) i k0 pad = do
  b ← get_elem? k0 i
  bs ← xor_key rounds (i + 1) k0 pad
  some (bit_xor b pad ∷ bs)

unfoldable pub hmac_sha256 : List ℕ → List ℕ → Option (List ℕ)
hmac_sha256 key message = do
  k0 ← hmac_key key
  inner ← xor_key 64 0 k0 0x36
  hashed ← sha256 (inner ++ message)
  outer ← xor_key 64 0 k0 0x5c
  sha256 (outer ++ hashed)
