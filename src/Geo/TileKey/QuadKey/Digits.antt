-- ===== src/Geo/TileKey/QuadKey/Digits.antt =====
-- ToQuadKey() writes the base-4 digits of the Morton code, one for each level.
use here_olp_edge_sdk_cpp.Prelude.{
  ℕ, zero, suc, ◌+◌, ◌-◌, ◌*◌, ◌/◌, ◌%◌, ◌^◌, ◌<◌, ◌≡◌, refl, sym, ap, ◌∙◌, shl64, arith, List, [],
  ◌∷◌, ◌++◌, set, replicate, length, length-append,
}
use here_olp_edge_sdk_cpp.Geo.TileKey.{TileKey, IsValid, get_child}
use here_olp_edge_sdk_cpp.Geo.TileKey.Levels.Ancestors.{
  is_valid_iff, get_child_lem, get_child-IsValid,
}
use here_olp_edge_sdk_cpp.Geo.TileKey.Morton.{to_quad_key64}
use here_olp_edge_sdk_cpp.Geo.TileKey.Morton.Spread.{four-pow-suc}
use here_olp_edge_sdk_cpp.Geo.TileKey.Morton.Encode.{
  morton_code, morton_code-get_child, to_quad_key64-morton_code,
}
use here_olp_edge_sdk_cpp.Geo.TileKey.QuadKey.{write_digits, to_quad_key}
use mathlib.Core.Path.{ap₂}
use mathlib.Core.List.{append-nil}
use native.Mathlib.Nat.{pow-le-pow_right, mod-eq_of_lt, div-div-eq-div-mul}

-- The last `n` digits of `m` to the base of 4, the first one first.
pub digits_of : ℕ → ℕ → List ℕ
digits_of zero m = []
digits_of (suc n) m = digits_of n (m / 4) ++ (m % 4 + b'0') ∷ []

length-digits_of : (n m : ℕ) → length (digits_of n m) ≡ n
unfolding digits_of
length-digits_of zero m = refl
length-digits_of (suc n) m =
    omega
      (arith, length-append (digits_of n (m / 4)) ((m % 4 + b'0') ∷ []), length-digits_of n (m / 4))

pub digits_front : (n m : ℕ) → digits_of (suc n) m ≡ (m / 2 ^ (2 * n) % 4 + b'0') ∷ digits_of n m
unfolding digits_of
digits_front zero m = ground arith
digits_front (suc n) m =
    ap (λ (s : List ℕ). s ++ (m % 4 + b'0') ∷ []) (digits_front n (m / 4))
    ∙ ap (λ (t : ℕ). (t % 4 + b'0') ∷ (digits_of n (m / 4) ++ (m % 4 + b'0') ∷ []))
        (div-div-eq-div-mul m 4 (2 ^ (2 * n)) ∙ ap (λ (t : ℕ). m / t) (sym (four-pow-suc n)))

abbrev zeros : ℕ → List ℕ
zeros n = replicate n 0

set_last_zero : (n x : ℕ) (s : List ℕ) → set (zeros (suc n) ++ s) n x ≡ zeros n ++ x ∷ s
set_last_zero zero x s = refl
set_last_zero (suc n) x s = ap (◌∷◌ 0) (set_last_zero n x s)

write_digits-digits_of :
    (rounds i m level : ℕ)
    → rounds + i ≡ level
    → level < 32
    → write_digits rounds i m level (zeros rounds ++ digits_of i m) ≡ digits_of level m
unfolding write_digits
write_digits-digits_of zero i m level e h = ap (λ (t : ℕ). digits_of t m) (omega arith)
write_digits-digits_of (suc rounds) i m level e h =
    ap (write_digits rounds (i + 1) m level) written
    ∙ write_digits-digits_of rounds (i + 1) m level (omega arith) h
  where
    mask : shl64 1 (2 * i) ≡ 2 ^ (2 * i)
    mask =
        mod-eq_of_lt
          (omega (arith, pow-le-pow_right {n = 2} (omega arith) {i = 2 * i} {j = 63} (omega arith)))
        ∙ omega arith

    written :
        set (zeros (suc rounds) ++ digits_of i m) (level - i - 1) (m / shl64 1 (2 * i) % 4 + b'0')
        ≡ zeros rounds ++ digits_of (i + 1) m
    written =
        ap₂ (set (zeros (suc rounds) ++ digits_of i m)) {x = level - i - 1} {y = rounds}
          (omega arith) (ap (λ (t : ℕ). m / t % 4 + b'0') mask)
        ∙ set_last_zero rounds _ (digits_of i m)
        ∙ ap (λ (s : List ℕ). zeros rounds ++ s)
            (sym (digits_front i m) ∙ ap (λ (t : ℕ). digits_of t m) {x = suc i} (omega arith))

-- The digits of a valid tile below the root.
pub to_quad_key-digits_of :
    (k : TileKey) → IsValid k → 0 < k.level → to_quad_key k ≡ digits_of k.level (morton_code k)
unfolding to_quad_key digits_of
to_quad_key-digits_of k v h = rw ((is_valid_iff k).1 v) (ground (arith, written))
  where
    written :
        write_digits k.level 0 (to_quad_key64 k) k.level (zeros k.level)
        ≡ digits_of k.level (morton_code k)
    written = rw (to_quad_key64-morton_code k v) (
        ap (write_digits k.level 0 (morton_code k) k.level) (sym (append-nil (zeros k.level)))
        ∙ write_digits-digits_of k.level 0 (morton_code k) k.level (omega arith) v.0)

-- One character for each level.
pub length-to_quad_key : (k : TileKey) → IsValid k → 0 < k.level → length (to_quad_key k) ≡ k.level
length-to_quad_key k v h =
    ap length (to_quad_key-digits_of k v h) ∙ length-digits_of k.level (morton_code k)

-- ToQuadKey() of a child, at an index below 4, of a valid tile that is neither the root nor on the last
-- level is the tile's string and the digit of the index.
to_quad_key-get_child :
    (k : TileKey) (i : ℕ)
    → IsValid k
    → 0 < k.level
    → k.level < 31
    → i < 4
    → to_quad_key (get_child k i) ≡ to_quad_key k ++ (i + b'0') ∷ []
unfolding digits_of
to_quad_key-get_child k i v l h b =
    to_quad_key-digits_of (get_child k i) (get_child-IsValid k i v h b)
      (ground (arith, get_child_lem k i v h b))
    ∙ ap₂ digits_of (ap (λ (t : TileKey). t.level) (get_child_lem k i v h b))
        (morton_code-get_child k i v h b)
    ∙ appended
    ∙ ap (λ (s : List ℕ). s ++ (i + b'0') ∷ []) (sym (to_quad_key-digits_of k v l))
  where
    appended :
        digits_of (k.level + 1) (4 * morton_code k + i)
        ≡ digits_of k.level (morton_code k) ++ (i + b'0') ∷ []
    appended =
        ap (λ (t : ℕ). digits_of t (4 * morton_code k + i)) {x = k.level + 1} {y = suc k.level}
          (omega arith)
        ∙ ap₂ (λ (m d : ℕ). digits_of k.level m ++ (d + b'0') ∷ [])
            {x = (4 * morton_code k + i) / 4} {y = morton_code k} {u = (4 * morton_code k + i) % 4}
            {v = i} (omega arith) (omega arith)
