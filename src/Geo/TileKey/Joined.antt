-- ===== src/Geo/TileKey/Joined.antt =====
-- AddedSubkey() and GetSubkey() of QuadKey64Helper: a key and a subkey joined, and parted again.
use here_olp_edge_sdk_cpp.Prelude.{
  ℕ, zero, suc, ◌+◌, ◌-◌, ◌*◌, ◌%◌, ◌^◌, ◌≤◌, ◌<◌, ◌≡◌, sym, ap, ◌∙◌, lt→not-leb, bit_and, bit_or,
  shl64, u64_mod, some, bind_eq, arith,
}
use here_olp_edge_sdk_cpp.Prelude.Bits.{bit_or_fields, bit_and_mask, bit_or_comm}
use here_olp_edge_sdk_cpp.Geo.TileKey.Subkey.{
  get_subkey, widened, widened_step, added_subkey, mask-suc, mask-le,
}
use mathlib.Core.Path.{ap₂}
use native.Mathlib.Nat.{pow-le-pow_right, one-le-pow, mod-eq_of_lt}

widened_stop :
    (fuel sub_key result mask : ℕ)
    → sub_key < shl64 mask 2
    → widened (suc fuel) sub_key result mask ≡ some (result, mask)
unfolding widened
widened_stop fuel sub_key result mask h = rw (lt→not-leb sub_key (shl64 mask 2) h, widened)

scaled : (x d : ℕ) → x * 2 ^ (2 * suc d) ≡ (x * 4) * 2 ^ (2 * d)
scaled x d = omega (arith, ap (λ (t : ℕ). x * t) (mask-suc d))

at_least : (x d : ℕ) → x ≤ x * 2 ^ (2 * d)
at_least x d = grind (arith, one-le-pow (2 * d) 2)

-- `d` rounds are to go, to the mask of level `i + d`.
widened_to :
    (d i sub_key result mask : ℕ)
    → i + d ≤ 30
    → mask ≡ 2 ^ (2 * i)
    → 2 ^ (2 * (i + d)) ≤ sub_key
    → sub_key < 2 ^ (2 * suc (i + d))
    → result * 2 ^ (2 * d) < 2 ^ 64
    → widened (suc d) sub_key result mask ≡ some (result * 2 ^ (2 * d), 2 ^ (2 * (i + d)))
widened_to zero i sub_key result mask h e lo hi fits =
    let level : 2 ^ (2 * suc (i + 0)) ≡ 2 ^ (2 * suc i) =
      ap (λ (t : ℕ). 2 ^ (2 * suc t)) {x = i + 0} {y = i} (omega arith) in
    let same : mask ≡ 2 ^ (2 * (i + 0)) =
      e ∙ ap (λ (t : ℕ). 2 ^ (2 * t)) {x = i} {y = i + 0} (omega arith) in
    widened_stop 0 sub_key result mask (omega (arith, e, mask-suc i, mask-le (suc i), hi, level))
    ∙ ap some (ap₂ (λ (r m : ℕ). (r, m)) {x = result} {y = result * 2 ^ (2 * 0)} (omega arith) same)
widened_to (suc d) i sub_key result mask h e lo hi fits =
    let next : shl64 mask 2 ≡ 2 ^ (2 * suc i) = omega (arith, e, mask-suc i, mask-le (suc i)) in
    let same : suc i + d ≡ i + suc d = omega arith in
    let level : 2 ^ (2 * (suc i + d)) ≡ 2 ^ (2 * (i + suc d)) = ap (λ (t : ℕ). 2 ^ (2 * t)) same in
    let above : 2 ^ (2 * suc (suc i + d)) ≡ 2 ^ (2 * suc (i + suc d)) =
      ap (λ (t : ℕ). 2 ^ (2 * suc t)) same in
    let bound : 2 ^ (2 * suc i) ≤ 2 ^ (2 * (i + suc d)) =
      pow-le-pow_right {n = 2} (omega arith) {i = 2 * suc i} {j = 2 * (i + suc d)} (omega arith) in
    let kept : shl64 result 2 ≡ result * 4 =
      omega (arith, fits, scaled result d, at_least (result * 4) d) in
    widened_step (suc d) sub_key result mask (omega (arith, next, bound, lo))
    ∙ ap (λ (r : ℕ). widened (suc d) sub_key r (shl64 mask 2)) kept
    ∙ widened_to d (suc i) sub_key (result * 4) (shl64 mask 2) (omega arith) next
        (omega (arith, lo, level)) (omega (arith, hi, above)) (omega (arith, fits, scaled result d))
    ∙ ap some (ap₂ (λ (r m : ℕ). (r, m)) (sym (scaled result d)) level)

low_part :
    (m sub_key : ℕ)
    → 2 ^ (2 * m) ≤ sub_key
    → sub_key < 2 * 2 ^ (2 * m)
    → m ≤ 31
    → bit_and sub_key ((2 ^ (2 * m) + u64_mod - 1) % u64_mod) ≡ sub_key - 2 ^ (2 * m)
low_part m sub_key lo hi h =
    ap (bit_and sub_key) {x = (2 ^ (2 * m) + u64_mod - 1) % u64_mod} {y = 2 ^ (2 * m) - 1}
      (omega (arith, mask-le m h, one-le-pow (2 * m) 2))
    ∙ bit_and_mask (2 * m) sub_key
    ∙ grind (arith, one-le-pow (2 * m) 2)

added_subkey_lem :
    (m key sub_key : ℕ)
    → m ≤ 30
    → 2 ^ (2 * m) ≤ sub_key
    → sub_key < 2 * 2 ^ (2 * m)
    → key * 2 ^ (2 * m) < 2 ^ 64
    → added_subkey (suc m) key sub_key ≡ some (key * 2 ^ (2 * m) + (sub_key - 2 ^ (2 * m)))
unfolding added_subkey
added_subkey_lem m key sub_key h lo hi fits =
    bind_eq (λ (p : ℕ × ℕ). some (bit_or p.0 (bit_and sub_key ((p.1 + u64_mod - 1) % u64_mod))))
      (widened_to m 0 sub_key key 1 (omega arith) (omega arith) (omega (arith, lo, level))
        (omega (arith, hi, mask-suc m, above)) fits)
    ∙ ap
        (λ (t : ℕ).
          some (bit_or (key * 2 ^ (2 * m)) (bit_and sub_key ((t + u64_mod - 1) % u64_mod))))
        level
    ∙ ap (λ (t : ℕ). some (bit_or (key * 2 ^ (2 * m)) t)) (low_part m sub_key lo hi (omega arith))
    ∙ ap some (bit_or_fields (2 * m) key (sub_key - 2 ^ (2 * m)) (omega arith))
  where
    level : 2 ^ (2 * (0 + m)) ≡ 2 ^ (2 * m)
    level = ap (λ (t : ℕ). 2 ^ (2 * t)) {x = 0 + m} {y = m} (omega arith)

    above : 2 ^ (2 * suc (0 + m)) ≡ 2 ^ (2 * suc m)
    above = ap (λ (t : ℕ). 2 ^ (2 * suc t)) {x = 0 + m} {y = m} (omega arith)

remainder : (high low n : ℕ) → low < n → (high * n + low) % n ≡ low
remainder high low n h = grind (arith, mod-eq_of_lt {n = low} {m = n})

get_subkey_lem :
    (m key low : ℕ)
    → m ≤ 31
    → low < 2 ^ (2 * m)
    → get_subkey (key * 2 ^ (2 * m) + low) m ≡ 2 ^ (2 * m) + low
unfolding get_subkey
get_subkey_lem m key low h fits =
    ap₂ (λ (mask msb : ℕ). bit_or (bit_and (key * 2 ^ (2 * m) + low) mask) msb)
      {x = (shl64 1 (m * 2) + u64_mod - 1) % u64_mod} {y = 2 ^ (2 * m) - 1}
      (omega (arith, msb, mask-le m h, one-le-pow (2 * m) 2)) msb
    ∙ ap (λ (t : ℕ). bit_or t (2 ^ (2 * m)))
        (bit_and_mask (2 * m) (key * 2 ^ (2 * m) + low) ∙ remainder key low (2 ^ (2 * m)) fits)
    ∙ bit_or_comm low (2 ^ (2 * m))
    ∙ ap (λ (t : ℕ). bit_or t low) {x = 2 ^ (2 * m)} {y = 1 * 2 ^ (2 * m)} (omega arith)
    ∙ bit_or_fields (2 * m) 1 low fits
    ∙ omega arith
  where
    msb : shl64 1 (m * 2) ≡ 2 ^ (2 * m)
    msb =
        ap (λ (t : ℕ). 1 * 2 ^ t % 2 ^ 64) {x = m * 2} {y = 2 * m} (omega arith)
        ∙ omega (arith, mask-le m h)

-- For a subkey with `2 * m + 1` binary digits, an `m` of at most 30, and a key whose shift by `2 * m`
-- digits fits 64 bits, the loop of AddedSubkey() ends after `m` rounds: the key comes first, and then
-- the digits of the subkey after its leading one. GetSubkey() of `m` levels gives the subkey back.
pub get_subkey-added_subkey :
    (m key sub_key : ℕ)
    → m ≤ 30
    → 2 ^ (2 * m) ≤ sub_key
    → sub_key < 2 * 2 ^ (2 * m)
    → key * 2 ^ (2 * m) < 2 ^ 64
    → (added_subkey (suc m) key sub_key ≡ some (key * 2 ^ (2 * m) + (sub_key - 2 ^ (2 * m))))
      × (get_subkey (key * 2 ^ (2 * m) + (sub_key - 2 ^ (2 * m))) m ≡ sub_key)
get_subkey-added_subkey m key sub_key h lo hi fits = (
  added_subkey_lem m key sub_key h lo hi fits,
  get_subkey_lem m key (sub_key - 2 ^ (2 * m)) (omega arith) (omega arith) ∙ omega arith,
)
