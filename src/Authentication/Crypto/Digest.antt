-- ===== src/Authentication/Crypto/Digest.antt =====
-- SHA-256: no read is out of bounds, and the digest has 32 bytes.
use here_olp_edge_sdk_cpp.Prelude.{
  ℕ, zero, suc, ◌+◌, ◌-◌, ◌*◌, ◌/◌, ◌%◌, ◌^◌, ◌≤◌, ◌<◌, inl, inr, Bool-cases, some, List, [], ◌∷◌,
  ◌++◌, length, ltb, ltb→lt, ◌≡◌, refl, ap, ◌∙◌, arith, length-append, get_elem?_within, bit_or,
  shl32, add32,
}
use here_olp_edge_sdk_cpp.Authentication.Crypto.{
  Hash, sha256_k, load_word, load_words, next_word, extend_words, compress, compress_rounds,
  add_hash, sha256_transform, fill, length_bytes, chunks_to_process, transform_whole,
  transform_each, sha256_init, word_bytes, hash_bytes, sha256, sha256_sigma0, sha256_sigma1,
}
use here_olp_edge_sdk_cpp.Authentication.Crypto.Padding.{
  length-fill, length-length_bytes, rest, length-rest,
}

abbrev pub All : (ℕ → Type 0) → List ℕ → Type 0
All P [] = Unit
All P (x ∷ xs) = P x × All P xs

-- Thirty-two bytes.
abbrev pub IsDigest : List ℕ → Type 0
IsDigest bytes = (length bytes ≡ 32) × All (λ b. b < 256) bytes

load_word_within :
    (chunk : List ℕ) (j : ℕ) → j + 3 < length chunk → (w : ℕ) × (load_word chunk j ≡ some w)
unfolding load_word
load_word_within chunk j h =
    let (b0, e0) = get_elem?_within chunk j (omega (arith, h)) in
    let (b1, e1) = get_elem?_within chunk (j + 1) (omega (arith, h)) in
    let (b2, e2) = get_elem?_within chunk (j + 2) (omega (arith, h)) in
    let (b3, e3) = get_elem?_within chunk (j + 3) h in
    (bit_or (bit_or (bit_or (shl32 b0 24) (shl32 b1 16)) (shl32 b2 8)) b3, rw (e0, e1, e2, e3))

load_words_within :
    (rounds : ℕ) (chunk : List ℕ) (j : ℕ)
    → j + 4 * rounds ≤ length chunk
    → (ws : List ℕ) × (load_words rounds chunk j ≡ some ws) × (length ws ≡ rounds)
unfolding load_words
load_words_within zero chunk j h = ([], refl, refl)
load_words_within (suc rounds) chunk j h =
    let (w, e) = load_word_within chunk j (omega (arith, h)) in
    let (ws, es, n) = load_words_within rounds chunk (j + 4) (omega (arith, h)) in
    (w ∷ ws, rw (e, es), ap suc n)

next_word_within :
    (w : List ℕ) (i : ℕ) → 16 ≤ i → length w ≡ i → (word : ℕ) × (next_word w i ≡ some word)
unfolding next_word
next_word_within w i h n =
    let (w2, e2) = get_elem?_within w (i - 2) (omega (arith, h, n)) in
    let (w7, e7) = get_elem?_within w (i - 7) (omega (arith, h, n)) in
    let (w15, e15) = get_elem?_within w (i - 15) (omega (arith, h, n)) in
    let (w16, e16) = get_elem?_within w (i - 16) (omega (arith, h, n)) in
    (add32 (add32 (add32 (sha256_sigma1 w2) w7) (sha256_sigma0 w15)) w16, rw (e2, e7, e15, e16))

extend_words_within :
    (rounds i : ℕ) (w : List ℕ)
    → 16 ≤ i
    → length w ≡ i
    → (ws : List ℕ) × (extend_words rounds i w ≡ some ws) × (length ws ≡ i + rounds)
unfolding extend_words
extend_words_within zero i w h n = (w, refl, omega (arith, n))
extend_words_within (suc rounds) i w h n =
    let (word, e) = next_word_within w i h n in
    let (ws, es, m) =
      extend_words_within rounds (i + 1) (w ++ word ∷ []) (omega (arith, h))
        (omega (arith, n, length-append w (word ∷ []))) in
    (ws, rw (e, es), omega (arith, m))

length-sha256_k : length sha256_k ≡ 64
unfolding sha256_k
length-sha256_k = refl

compress_rounds_within :
    (rounds i : ℕ) (w : List ℕ) (v : Hash)
    → i + rounds ≤ 64
    → i + rounds ≤ length w
    → (v' : Hash) × (compress_rounds rounds i w v ≡ some v')
unfolding compress_rounds
compress_rounds_within zero i w v h n = (v, refl)
compress_rounds_within (suc rounds) i w v h n =
    let (k, ek) = get_elem?_within sha256_k i (omega (arith, h, length-sha256_k)) in
    let (word, ew) = get_elem?_within w i (omega (arith, n)) in
    let (v', e) =
      compress_rounds_within rounds (i + 1) w (compress v k word) (omega (arith, h))
        (omega (arith, n)) in
    (v', rw (ek, ew, e))

-- A transformation of a chunk with 64 bytes from its start ends without a read out of bounds.
sha256_transform_within :
    (chunk : List ℕ) (start : ℕ) (h : Hash)
    → start + 64 ≤ length chunk
    → (h' : Hash) × (sha256_transform chunk start h ≡ some h')
unfolding sha256_transform
sha256_transform_within chunk start h fits =
    let (first, e1, n1) = load_words_within 16 chunk start (omega (arith, fits)) in
    let (w, e2, n2) = extend_words_within 48 16 first (omega arith) n1 in
    let (v, e3) = compress_rounds_within 64 0 w h (omega arith) (omega (arith, n2)) in
    (add_hash h v, rw (e1, e2, e3))

transform_whole_within :
    (rounds i : ℕ) (src : List ℕ) (h : Hash)
    → (i + rounds) * 64 ≤ length src
    → (h' : Hash) × (transform_whole rounds i src h ≡ some h')
unfolding transform_whole
transform_whole_within zero i src h fits = (h, refl)
transform_whole_within (suc rounds) i src h fits =
    let (h1, e1) = sha256_transform_within src (i * 64) h (omega (arith, fits)) in
    let (h2, e2) = transform_whole_within rounds (i + 1) src h1 (omega (arith, fits)) in
    (h2, rw (e1, e2))

abbrev AreBlocks : List (List ℕ) → Type 0
AreBlocks [] = Unit
AreBlocks (c ∷ cs) = (length c ≡ 64) × AreBlocks cs

transform_each_within :
    (chunks : List (List ℕ)) (h : Hash)
    → AreBlocks chunks
    → (h' : Hash) × (transform_each chunks h ≡ some h')
unfolding transform_each
transform_each_within [] h fits = (h, refl)
transform_each_within (c ∷ cs) h (size, fits) =
    let (h1, e1) = sha256_transform_within c 0 h (omega (arith, size)) in
    let (h2, e2) = transform_each_within cs h1 fits in (h2, rw (e1, e2))

chunks_to_process-AreBlocks : (src : List ℕ) → AreBlocks (chunks_to_process src)
unfolding chunks_to_process
chunks_to_process-AreBlocks src =
    let size : length (rest src ++ 0x80 ∷ []) ≡ length src % 64 + 1 =
      length-append (rest src) (0x80 ∷ []) ∙ ap (λ n. n + 1) (length-rest src) in
    let ending : List ℕ = length_bytes 8 (length src * 8 % 2 ^ 64) in
    let eight : length (length_bytes 8 (length src * 8 % 2 ^ 64)) ≡ 8 =
      length-length_bytes 8 (length src * 8 % 2 ^ 64) in
    elim (Bool-cases (ltb (length src % 64) 56)) [
      | inl short ↦
          let below : length src % 64 < 56 = ltb→lt (length src % 64) 56 short in
          rw short (
            length-append (fill 56 (rest src ++ 0x80 ∷ [])) ending
                ∙ omega (
                  arith,
                  length-fill 56 (rest src ++ 0x80 ∷ []) (omega (arith, size, below)),
                  eight,
                ),
            tt,
          )
      | inr long ↦ rw long (
        length-fill 64 (rest src ++ 0x80 ∷ []) (omega (arith, size)),
        (
          length-append (fill 56 []) ending ∙ omega (arith, length-fill 56 [] (omega arith), eight),
          tt,
        ),
      )
    ]

hash_bytes-IsDigest : (h : Hash) → IsDigest (hash_bytes h)
unfolding hash_bytes word_bytes
hash_bytes-IsDigest h = (refl, omega arith)

-- SHA-256 of any message comes to its end without a read out of bounds, and gives 32 bytes.
pub sha256-IsDigest :
    (src : List ℕ) → (digest : List ℕ) × (sha256 src ≡ some digest) × IsDigest digest
unfolding sha256
sha256-IsDigest src =
    let (h1, e1) = transform_whole_within (length src / 64) 0 src sha256_init (omega arith) in
    let (h2, e2) =
      transform_each_within (chunks_to_process src) h1 (chunks_to_process-AreBlocks src) in
    (hash_bytes h2, rw (e1, e2), hash_bytes-IsDigest h2)
