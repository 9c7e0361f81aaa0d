-- ===== src/Geo/TileKey/Subkey.antt =====
-- The struct QuadKey64Helper of olp-cpp-sdk-core/include/olp/core/geo/tiling/TileKey.h and
-- olp-cpp-sdk-core/src/geo/tiling/TileKey.cpp, and the subkeys of a TileKey.
use here_olp_edge_sdk_cpp.Prelude.{
  ℕ, zero, suc, ◌+◌, ◌-◌, ◌*◌, ◌%◌, ◌^◌, ◌≤◌, ◌≡◌, refl, ap, ◌∙◌, true, false, leb, le→leb, bit_and,
  bit_or, shl32, shl64, shr, u64_mod, Option, none, some, ◌>>=◌, arith,
}
use here_olp_edge_sdk_cpp.Geo.TileKey.{TileKey}
use here_olp_edge_sdk_cpp.Geo.TileKey.Morton.{to_quad_key64, from_quad_key64}
use native.Mathlib.Decide.{dec_lt}
use native.Mathlib.Nat.{pow-suc, pow-le-pow_right}

-- Parent(), Child(), RowsAtLevel() and ChildrenAtLevel() of QuadKey64Helper.
unfoldable pub parent_key : ℕ → ℕ
parent_key key = shr key 2

unfoldable pub child_key : ℕ → ℕ
child_key key = shl64 key 2

unfoldable pub rows_at_level : ℕ → ℕ
rows_at_level level = shl32 1 level

unfoldable pub children_at_level : ℕ → ℕ
children_at_level level = shl32 1 (shl32 level 1)

-- GetSubkey(), for a `delta` that is not negative.
unfoldable pub get_subkey : ℕ → ℕ → ℕ
get_subkey key delta =
    let msb = shl64 1 (delta * 2) in
    let mask = (msb + u64_mod - 1) % u64_mod in bit_or (bit_and key mask) msb

-- The loop of AddedSubkey(), on fuel; `none` where the fuel is used up.
unfoldable pub widened : ℕ → ℕ → ℕ → ℕ → Option (ℕ × ℕ)
widened zero sub_key result mask = none
widened (suc fuel) sub_key result mask = elim (leb (shl64 mask 2) sub_key) [
  | true ↦ widened fuel sub_key (shl64 result 2) (shl64 mask 2)
  | false ↦ some (result, mask)
]

unfoldable pub added_subkey : ℕ → ℕ → ℕ → Option ℕ
added_subkey fuel key sub_key = do
  (result, mask) ← widened fuel sub_key key 1
  some (bit_or result (bit_and sub_key ((mask + u64_mod - 1) % u64_mod)))

-- TileKey::GetSubkey64() and TileKey::AddedSubkey64()
unfoldable pub get_subkey64 : TileKey → ℕ → ℕ
get_subkey64 k delta = get_subkey (to_quad_key64 k) delta

unfoldable pub added_subkey64 : ℕ → TileKey → ℕ → Option TileKey
added_subkey64 fuel k sub_quad_key = do
  key ← added_subkey fuel (to_quad_key64 k) sub_quad_key
  some (from_quad_key64 key)

pub widened_step :
    (fuel sub_key result mask : ℕ)
    → shl64 mask 2 ≤ sub_key
    → widened (suc fuel) sub_key result mask ≡ widened fuel sub_key (shl64 result 2) (shl64 mask 2)
unfolding widened
widened_step fuel sub_key result mask h = rw (le→leb (shl64 mask 2) sub_key h, widened)

-- A mask that is shifted out stays 0.
widened_zero : (fuel sub_key result mask : ℕ) → mask ≡ 0 → widened fuel sub_key result mask ≡ none
unfolding widened
widened_zero zero sub_key result mask e = refl
widened_zero (suc fuel) sub_key result mask e =
    widened_step fuel sub_key result mask (omega (arith, e))
    ∙ widened_zero fuel sub_key (shl64 result 2) (shl64 mask 2) (omega (arith, e))

pub mask-suc : (i : ℕ) → 2 ^ (2 * suc i) ≡ 2 ^ (2 * i) * 4
mask-suc i =
    ap (λ (t : ℕ). 2 ^ t) {x = 2 * suc i} {y = suc (suc (2 * i))} (omega arith)
    ∙ omega (arith, pow-suc 2 (suc (2 * i)), pow-suc 2 (2 * i))

pub mask-le : (i : ℕ) → i ≤ 31 → 2 ^ (2 * i) ≤ 2 ^ 62
mask-le i h = pow-le-pow_right {n = 2} (omega arith) {i = 2 * i} {j = 62} (omega arith)

widened_endless :
    (fuel i sub_key result mask : ℕ)
    → i ≤ 31
    → mask ≡ 2 ^ (2 * i)
    → 2 ^ 62 ≤ sub_key
    → widened fuel sub_key result mask ≡ none
unfolding widened
widened_endless zero i sub_key result mask h e big = refl
widened_endless (suc fuel) i sub_key result mask h e big = elim (dec_lt i 31) [
  | yes p ↦
      let next : shl64 mask 2 ≡ 2 ^ (2 * suc i) = omega (arith, e, mask-suc i, mask-le (suc i)) in
      widened_step fuel sub_key result mask (omega (arith, next, mask-le (suc i), big))
      ∙ widened_endless fuel (suc i) sub_key (shl64 result 2) (shl64 mask 2) (omega arith) next big
  | no p ↦
      let top : mask ≡ 2 ^ 62 = e ∙ ap (λ (t : ℕ). 2 ^ t) {x = 2 * i} {y = 62} (omega arith) in
      widened_step fuel sub_key result mask (omega (arith, top))
      ∙ widened_zero fuel sub_key (shl64 result 2) (shl64 mask 2) (omega (arith, top))
]

-- AddedSubkey() does not end for a subkey of 2 ^ 62 or more, which is what a tile on level 31 has: no
-- number of rounds is enough.
pub added_subkey_endless :
    (fuel key sub_key : ℕ) → 2 ^ 62 ≤ sub_key → added_subkey fuel key sub_key ≡ none
unfolding added_subkey
added_subkey_endless fuel key sub_key big =
    ap
      (λ (o : Option (ℕ × ℕ)).
        o >>= λ p. some (bit_or p.0 (bit_and sub_key ((p.1 + u64_mod - 1) % u64_mod))))
      (widened_endless fuel 0 sub_key key 1 (omega arith) (omega arith) big)
