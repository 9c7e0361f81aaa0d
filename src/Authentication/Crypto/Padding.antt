-- ===== src/Authentication/Crypto/Padding.antt =====
-- SHA-256: the chunks that are processed are the blocks of the padded message of FIPS 180-4.
use here_olp_edge_sdk_cpp.Prelude.{
  ℕ, zero, suc, ◌+◌, ◌-◌, ◌*◌, ◌/◌, ◌%◌, ◌^◌, ◌≤◌, ◌<◌, inl, inr, Bool-cases, some, ◌>>=◌,
  bind_assoc, List, [], ◌∷◌, ◌++◌, length, take, drop, replicate, ltb, ltb→lt, not-ltb→le, ◌≡◌,
  refl, sym, ap, ◌∙◌, arith, length-append, length-drop, length-replicate, take-append, drop-append,
  take-length, replicate-append, bit_and,
}
use here_olp_edge_sdk_cpp.Prelude.Bits.{bit_and_mask, pow-add}
use native.Mathlib.Nat.{div-div-eq-div-mul}
use here_olp_edge_sdk_cpp.Authentication.Crypto.{
  Hash, sha256_transform, fill, length_bytes, chunks_to_process, transform_whole, transform_each,
  sha256_init, hash_bytes, sha256,
}
use mathlib.Core.List.{append_assoc}
use mathlib.Core.Path.{fun_ext}
use here_olp_edge_sdk_cpp.Authentication.Crypto.Blocks.{hash_blocks, transform_whole-hash_blocks}

-- The message with the bit 1, as many bits 0 as it takes, and its length in bits.
abbrev pub zeros : ℕ → ℕ
zeros n = (119 - n % 64) % 64

-- The lowest digits to the base 256 of a number, `count` of them, the highest first.
abbrev pub big_endian : ℕ → ℕ → List ℕ
big_endian zero n = []
big_endian (suc count) n = big_endian count (n / 256) ++ (n % 256) ∷ []

abbrev pub suffix : ℕ → List ℕ
suffix n = 0x80 ∷ (replicate (zeros n) 0 ++ big_endian 8 (n * 8 % 2 ^ 64))

abbrev pub padded : List ℕ → List ℕ
padded src = src ++ suffix (length src)

pub length-fill :
    (size : ℕ) (chunk : List ℕ) → length chunk ≤ size → length (fill size chunk) ≡ size
unfolding fill
length-fill size chunk h = omega (
  arith,
  length-append chunk (replicate (size - length chunk) 0),
  length-replicate {A = ℕ} (size - length chunk) 0,
)

pub length-length_bytes : (i n : ℕ) → length (length_bytes i n) ≡ i
unfolding length_bytes
length-length_bytes zero n = refl
length-length_bytes (suc i) n = ap suc (length-length_bytes i n)

length_bytes-suc : (i n : ℕ) → length_bytes (suc i) n ≡ length_bytes i (n / 256) ++ (n % 256) ∷ []
unfolding length_bytes
length_bytes-suc zero n =
    let whole : n / 2 ^ (0 * 8) ≡ n = omega arith in
    ap (λ m. bit_and m 0xff ∷ []) whole ∙ ap (λ m. m ∷ []) (bit_and_mask 8 n)
length_bytes-suc (suc i) n =
    let place : 2 ^ (suc i * 8) ≡ 256 * 2 ^ (i * 8) =
      ap (λ m. 2 ^ m) {x = suc i * 8} {y = 8 + i * 8} (omega arith) ∙ pow-add 8 (i * 8) in
    let first : n / 2 ^ (suc i * 8) ≡ n / 256 / 2 ^ (i * 8) =
      ap (λ m. n / m) place ∙ sym (div-div-eq-div-mul n 256 (2 ^ (i * 8))) in
    ap (λ m. bit_and m 0xff ∷ length_bytes (suc i) n) first
    ∙ ap (λ bs. bit_and (n / 256 / 2 ^ (i * 8)) 0xff ∷ bs) (length_bytes-suc i n)

length_bytes-big_endian : (i n : ℕ) → length_bytes i n ≡ big_endian i n
unfolding length_bytes
length_bytes-big_endian zero n = refl
length_bytes-big_endian (suc i) n =
    length_bytes-suc i n ∙ ap (λ bs. bs ++ (n % 256) ∷ []) (length_bytes-big_endian i (n / 256))

suffix-length_bytes :
    (n : ℕ) → suffix n ≡ 0x80 ∷ (replicate (zeros n) 0 ++ length_bytes 8 (n * 8 % 2 ^ 64))
suffix-length_bytes n =
    ap (λ bs. 0x80 ∷ (replicate (zeros n) 0 ++ bs))
      (sym (length_bytes-big_endian 8 (n * 8 % 2 ^ 64)))

-- What is left behind the whole chunks.
abbrev pub rest : List ℕ → List ℕ
rest src = drop (length src / 64 * 64) src

pub length-rest : (src : List ℕ) → length (rest src) ≡ length src % 64
length-rest src = omega (arith, length-drop (length src / 64 * 64) src)

-- One chunk, or two, of 64 bytes each.
transform_one :
    (c : List ℕ) (h : Hash) → length c ≡ 64 → hash_blocks 1 c h ≡ transform_each (c ∷ []) h
unfolding transform_each
transform_one c h e =
    let whole : take 64 c ≡ c = ap (λ n. take n c) (sym e) ∙ take-length c in
    ap (λ xs. sha256_transform xs 0 h >>= λ h'. some h') whole

transform_two :
    (c d : List ℕ) (h : Hash)
    → length c ≡ 64
    → length d ≡ 64
    → hash_blocks 2 (c ++ d) h ≡ transform_each (c ∷ d ∷ []) h
unfolding transform_each
transform_two c d h e e' =
    let first : take 64 (c ++ d) ≡ c = ap (λ n. take n (c ++ d)) (sym e) ∙ take-append c d in
    let second : drop 64 (c ++ d) ≡ d = ap (λ n. drop n (c ++ d)) (sym e) ∙ drop-append c d in
    rw (first, second)
      (ap (λ f. sha256_transform c 0 h >>= f) (fun_ext (λ h'. transform_one d h' e')))

module _ (src : List ℕ) where
  abbrev ending : List ℕ
  ending = length_bytes 8 (length src * 8 % 2 ^ 64)

  last_short :
      length src % 64 < 56
      → rest src ++ suffix (length src) ≡ fill 56 (rest src ++ 0x80 ∷ []) ++ ending
  unfolding fill
  last_short h =
      let size : length (rest src ++ 0x80 ∷ []) ≡ length src % 64 + 1 =
        length-append (rest src) (0x80 ∷ []) ∙ ap (λ n. n + 1) (length-rest src) in
      let pad : zeros (length src) ≡ 56 - (length src % 64 + 1) = omega (arith, h) in
      rw (suffix-length_bytes (length src), size, pad) (simp append_assoc)

  last_long :
      56 ≤ length src % 64
      → rest src ++ suffix (length src) ≡ fill 64 (rest src ++ 0x80 ∷ []) ++ (fill 56 [] ++ ending)
  unfolding fill
  last_long h =
      let size : length (rest src ++ 0x80 ∷ []) ≡ length src % 64 + 1 =
        length-append (rest src) (0x80 ∷ []) ∙ ap (λ n. n + 1) (length-rest src) in
      let pad : zeros (length src) ≡ 64 - (length src % 64 + 1) + 56 = omega (arith, h) in
      rw
        (
          suffix-length_bytes (length src),
          size,
          pad,
          sym (replicate-append {A = ℕ} (64 - (length src % 64 + 1)) 56 0),
        )
        (simp append_assoc)

  length-padded : length (padded src) ≡ 64 * ((length src + 8) / 64 + 1)
  length-padded = omega (
    arith,
    length-append src (suffix (length src)),
    ap length (suffix-length_bytes (length src)),
    length-append (replicate (zeros (length src)) 0) ending,
    length-replicate {A = ℕ} (zeros (length src)) 0,
    length-length_bytes 8 (length src * 8 % 2 ^ 64),
  )

  blocks_left : ℕ
  blocks_left = (length src + 8) / 64 + 1 - length src / 64

  -- The blocks behind the whole chunks are those of chunks_to_process().
  last_blocks :
      (h : Hash)
      → hash_blocks blocks_left (rest src ++ suffix (length src)) h
        ≡ transform_each (chunks_to_process src) h
  unfolding chunks_to_process blocks_left
  last_blocks h =
      let size : length (rest src ++ 0x80 ∷ []) ≡ length src % 64 + 1 =
        length-append (rest src) (0x80 ∷ []) ∙ ap (λ n. n + 1) (length-rest src) in
      let eight : length ending ≡ 8 = length-length_bytes 8 (length src * 8 % 2 ^ 64) in
      elim (Bool-cases (ltb (length src % 64) 56)) [
        | inl short ↦
            let below : length src % 64 < 56 = ltb→lt (length src % 64) 56 short in
            let one : (length src + 8) / 64 + 1 - length src / 64 ≡ 1 = omega (arith, below) in
            let whole : length (fill 56 (rest src ++ 0x80 ∷ []) ++ ending) ≡ 64 = omega (
              arith,
              below,
              size,
              eight,
              length-append (fill 56 (rest src ++ 0x80 ∷ [])) ending,
              length-fill 56 (rest src ++ 0x80 ∷ []) (omega (arith, size, below)),
            ) in
            rw (short, one, last_short below)
              (transform_one (fill 56 (rest src ++ 0x80 ∷ []) ++ ending) h whole)
        | inr long ↦
            let above : 56 ≤ length src % 64 = not-ltb→le (length src % 64) 56 long in
            let two : (length src + 8) / 64 + 1 - length src / 64 ≡ 2 = omega (arith, above) in
            let first : length (fill 64 (rest src ++ 0x80 ∷ [])) ≡ 64 =
              length-fill 64 (rest src ++ 0x80 ∷ []) (omega (arith, size)) in
            let second : length (fill 56 [] ++ ending) ≡ 64 =
              omega (
                arith,
                eight,
                length-append (fill 56 []) ending,
                length-fill 56 [] (omega arith),
              ) in
            rw (long, two, last_long above)
              (transform_two (fill 64 (rest src ++ 0x80 ∷ [])) (fill 56 [] ++ ending) h first
                second)
      ]

-- SHA-256 of a message is the hash of the blocks of 64 bytes of the padded message, as many as the
-- padded message has: the message, the byte 0x80, the fewest bytes 0 that make the blocks whole, and
-- eight bytes for the length in bits: its lowest eight digits to the base 256, the highest first.
pub sha256-padded :
    (src : List ℕ)
    → (sha256 src ≡ (
        hash_blocks ((length src + 8) / 64 + 1) (padded src) sha256_init >>= λ h.
        some (hash_bytes h)))
      × (length (padded src) ≡ 64 * ((length src + 8) / 64 + 1))
unfolding sha256 blocks_left
sha256-padded src =
    let count : (length src + 8) / 64 + 1 ≡ length src / 64 + blocks_left src = omega arith in
    let whole : 0 + length src / 64 ≡ length src / 64 = omega arith in
    let split : hash_blocks ((length src + 8) / 64 + 1) (padded src) sha256_init ≡ (
        transform_whole (length src / 64) 0 src sha256_init >>= λ h.
        transform_each (chunks_to_process src) h) =
      ap (λ n. hash_blocks n (padded src) sha256_init) count
      ∙ transform_whole-hash_blocks (length src / 64) 0 (blocks_left src) src (suffix (length src))
          sha256_init (omega arith)
      ∙ ap (λ f. transform_whole (length src / 64) 0 src sha256_init >>= f)
          (fun_ext (λ h. rw whole (last_blocks src h))) in
    (
      sym (
          ap (λ m. m >>= λ h. some (hash_bytes h)) split
          ∙ bind_assoc (transform_whole (length src / 64) 0 src sha256_init) _ _),
      length-padded src,
    )
