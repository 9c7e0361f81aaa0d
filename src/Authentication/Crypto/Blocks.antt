-- ===== src/Authentication/Crypto/Blocks.antt =====
-- SHA-256: a transformation reads the 64 bytes from its start, so a loop over chunks hashes blocks.
use here_olp_edge_sdk_cpp.Prelude.{
  ℕ, zero, suc, ◌+◌, ◌-◌, ◌*◌, ◌≤◌, ◌<◌, Option, some, ◌>>=◌, bind_assoc, List, ◌++◌, length,
  get_elem?, take, drop, ◌≡◌, refl, sym, ap, ◌∙◌, arith, length-drop, take-append_within,
  drop-append_within, drop-drop, get_elem?-take, get_elem?-drop,
}
use here_olp_edge_sdk_cpp.Authentication.Crypto.{
  Hash, load_word, load_words, sha256_transform, transform_whole,
}
use mathlib.Core.Path.{fun_ext}

-- The hash of a number of blocks of 64 bytes.
abbrev pub hash_blocks : ℕ → List ℕ → Hash → Option Hash
hash_blocks zero bytes h = some h
hash_blocks (suc blocks) bytes h = do
  h' ← sha256_transform (take 64 bytes) 0 h
  hash_blocks blocks (drop 64 bytes) h'

abbrev window : List ℕ → ℕ → List ℕ
window s start = take 64 (drop start s)

get_elem?-window :
    (s : List ℕ) (start i : ℕ) → i < 64 → get_elem? (window s start) i ≡ get_elem? s (start + i)
get_elem?-window s start i h = get_elem?-take 64 (drop start s) i h ∙ get_elem?-drop start s i

load_word-window :
    (s : List ℕ) (start j : ℕ) → j + 3 < 64 → load_word (window s start) j ≡ load_word s (start + j)
unfolding load_word
load_word-window s start j h =
    let e1 : start + j + 1 ≡ start + (j + 1) = omega arith in
    let e2 : start + j + 2 ≡ start + (j + 2) = omega arith in
    let e3 : start + j + 3 ≡ start + (j + 3) = omega arith in
    rw (
      e1,
      e2,
      e3,
      get_elem?-window s start j (omega arith),
      get_elem?-window s start (j + 1) (omega arith),
      get_elem?-window s start (j + 2) (omega arith),
      get_elem?-window s start (j + 3) (omega arith),
    )

load_words-window :
    (rounds : ℕ) (s : List ℕ) (start j : ℕ)
    → j + 4 * rounds ≤ 64
    → load_words rounds (window s start) j ≡ load_words rounds s (start + j)
unfolding load_words
load_words-window zero s start j h = refl
load_words-window (suc rounds) s start j h =
    let e : start + j + 4 ≡ start + (j + 4) = omega arith in
    rw (
      load_word-window s start j (omega arith),
      load_words-window rounds s start (j + 4) (omega arith),
      e,
    )

-- A transformation reads the 64 bytes from its start.
sha256_transform-window :
    (s : List ℕ) (start : ℕ) (h : Hash)
    → sha256_transform (take 64 (drop start s)) 0 h ≡ sha256_transform s start h
unfolding sha256_transform
sha256_transform-window s start h =
    let e : start + 0 ≡ start = omega arith in rw (load_words-window 16 s start 0 (omega arith), e)

-- The whole chunks of the source are its first blocks, whatever follows the source.
pub transform_whole-hash_blocks :
    (rounds i more : ℕ) (src end : List ℕ) (h : Hash)
    → (i + rounds) * 64 ≤ length src
    → hash_blocks (rounds + more) (drop (i * 64) src ++ end) h ≡ (
        transform_whole rounds i src h >>= λ h'.
        hash_blocks more (drop ((i + rounds) * 64) src ++ end) h')
unfolding transform_whole
transform_whole-hash_blocks zero i more src end h fits =
    let e : zero + more ≡ more = omega arith in let e' : i + zero ≡ i = omega arith in rw (e, e')
transform_whole-hash_blocks (suc rounds) i more src end h fits =
    let e : suc rounds + more ≡ suc (rounds + more) = omega arith in
    let size : length (drop (i * 64) src) ≡ length src - i * 64 = length-drop (i * 64) src in
    let enough : 64 ≤ length (drop (i * 64) src) = omega (arith, size, fits) in
    let round : (i + 1) * 64 ≡ i * 64 + 64 = omega arith in
    let last : i + suc rounds ≡ i + 1 + rounds = omega arith in
    let rest : drop 64 (drop (i * 64) src ++ end) ≡ drop ((i + 1) * 64) src ++ end = rw round (
      drop-append_within 64 (drop (i * 64) src) end enough
      ∙ ap (λ xs. xs ++ end) (sym (drop-drop (i * 64) 64 src))) in
    rw
      (
        e,
        take-append_within 64 (drop (i * 64) src) end enough,
        sha256_transform-window src (i * 64) h,
        rest,
        last,
      )
      (ap (λ f. sha256_transform src (i * 64) h >>= f)
          (fun_ext (λ h'.
            transform_whole-hash_blocks rounds (i + 1) more src end h' (omega (arith, fits))))
        ∙ sym (bind_assoc (sha256_transform src (i * 64) h) _ _))
