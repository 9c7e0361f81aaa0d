-- ===== src/Cache/Memory/Tests.antt =====
-- InMemoryCache on a concrete cache.
use here_olp_edge_sdk_cpp.Prelude.{ℕ, ◌≡◌, refl, ap, false, none, some, ◌>>=◌, [], ◌∷◌, arith}
use here_olp_edge_sdk_cpp.Cache.Lru.Ideal.{Ideal, IsKept}
use here_olp_edge_sdk_cpp.Cache.Lru.Refine.{laid}
use here_olp_edge_sdk_cpp.Cache.Memory.{Key, ItemTuple, get, equality_cache_cost}
use here_olp_edge_sdk_cpp.Cache.Memory.Expiry.{get-fresh}
use mathlib.Core.Path.{ap₂}
use native.Mathlib.Decide.{ℕ_discrete}

abbrev head_or : ℕ → Key → ℕ
head_or d [] = d
head_or d (x ∷ xs) = x

abbrev tail : Key → Key
tail [] = []
tail (x ∷ xs) = xs

unfoldable pub key_discrete : Discrete Key
key_discrete [] [] = yes refl
key_discrete [] (y ∷ ys) = no (λ p. cc)
key_discrete (x ∷ xs) [] = no (λ p. cc)
key_discrete (x ∷ xs) (y ∷ ys) = elim (ℕ_discrete x y) [
  | no p ↦ no (λ q. p (ap (head_or x) q))
  | yes p ↦ elim (key_discrete xs ys) [ no q ↦ no (λ r. q (ap tail r)) | yes q ↦ yes (ap₂ ◌∷◌ p q) ]
]

abbrev tuple : ItemTuple ℕ
tuple = record { key = b'k' ∷ []; expiry = 100; item = 7; item_size = 1 }

abbrev one : Ideal Key (ItemTuple ℕ)
one = record { entries = (b'k' ∷ [], tuple) ∷ []; max_size = 4; has_callback = false; evicted = [] }

one-IsKept : IsKept equality_cache_cost one
unfolding equality_cache_cost
one-IsKept = record { distinct = (tt, tt); within = omega arith; machine = omega arith }

get-fresh_example :
    (get key_discrete equality_cache_cost
        (record {
          item_tuples = laid key_discrete equality_cache_cost one;
          item_expiries = (100, tuple ∷ []) ∷ [];
        })
        (b'k' ∷ [])
        101
      >>= λ r. some r.1)
    ≡ some none
unfolding key_discrete ℕ_discrete
get-fresh_example =
    get-fresh key_discrete equality_cache_cost one ((100, tuple ∷ []) ∷ []) (b'k' ∷ []) 101
      one-IsKept
