-- ===== src/Cache/Lru/Runs.antt =====
-- Sequences of calls of a cache.
use here_olp_edge_sdk_cpp.Prelude.{
  ◌>>=◌, bind_eq, ℕ, ◌^◌, ◌<◌, ◌≡◌, refl, ap, ◌∙◌, Bool, Option, some, List, [], ◌∷◌, arith,
}
use here_olp_edge_sdk_cpp.Cache.Lru.{
  LruCache, empty, clear, erase, resize, insert, insert_or_assign, find,
}
use here_olp_edge_sdk_cpp.Cache.Lru.Ideal.{
  Ideal, IsKept, ideal_find, ideal_insert, ideal_insert_or_assign, ideal_erase, ideal_resize,
  ideal_clear,
}
use here_olp_edge_sdk_cpp.Cache.Lru.Refine.{
  laid, answered, find-laid, erase-laid, insert-laid, insert_or_assign-laid, resize-laid,
  clear-laid, empty-laid,
}
use here_olp_edge_sdk_cpp.Cache.Lru.Kept.{
  ideal_find-IsKept, ideal_insert-IsKept, ideal_insert_or_assign-IsKept, ideal_erase-IsKept,
  ideal_resize-IsKept, ideal_clear-IsKept,
}

pub data Call {ℓ} (K V : Type ℓ) : Type ℓ where
  finding : K → Call K V
  inserting : K → V → Call K V
  assigning : K → V → Call K V
  erasing : K → Call K V
  resizing : ℕ → Call K V
  clearing : Call K V

-- Both a size and a cost are below half of the range of `std::size_t`.
abbrev pub IsSmall {ℓ} : {K V : Type ℓ} → (V → ℕ) → Call K V → Type 0
IsSmall cost (finding k) = Unit
IsSmall cost (inserting k v) = cost v < 2 ^ 63
IsSmall cost (assigning k v) = cost v < 2 ^ 63
IsSmall cost (erasing k) = Unit
IsSmall cost (resizing n) = n < 2 ^ 63
IsSmall cost clearing = Unit

abbrev pub AreSmall {ℓ} : {K V : Type ℓ} → (V → ℕ) → List (Call K V) → Type 0
AreSmall cost [] = Unit
AreSmall cost (call ∷ calls) = IsSmall cost call × AreSmall cost calls

module _ {ℓ} {K V : Type ℓ} (dec : Discrete K) (cost : V → ℕ) where
  -- The cache after a call.
  unfoldable pub perform : LruCache K V → Call K V → Option (LruCache K V)
  perform c (finding k) = do (c', _) ← find dec cost c k; some c'
  perform c (inserting k v) = do (c', _) ← insert dec cost c k v; some c'
  perform c (assigning k v) = do (c', _) ← insert_or_assign dec cost c k v; some c'
  perform c (erasing k) = do (c', _) ← erase dec cost c k; some c'
  perform c (resizing n) = resize dec cost c n
  perform c clearing = some (clear c)

  unfoldable pub perform_all : LruCache K V → List (Call K V) → Option (LruCache K V)
  perform_all c [] = some c
  perform_all c (call ∷ calls) = do c' ← perform c call; perform_all c' calls

  unfoldable pub ideal_perform : Ideal K V → Call K V → Ideal K V
  ideal_perform s (finding k) = (ideal_find dec cost s k).0
  ideal_perform s (inserting k v) = (ideal_insert dec cost s k v).0
  ideal_perform s (assigning k v) = (ideal_insert_or_assign dec cost s k v).0
  ideal_perform s (erasing k) = (ideal_erase dec cost s k).0
  ideal_perform s (resizing n) = ideal_resize dec cost s n
  ideal_perform s clearing = ideal_clear s

  unfoldable pub ideal_perform_all : Ideal K V → List (Call K V) → Ideal K V
  ideal_perform_all s [] = s
  ideal_perform_all s (call ∷ calls) = ideal_perform_all (ideal_perform s call) calls

  first_of {κ} :
      {B : Type κ} (m : Option (LruCache K V × B)) (a : Ideal K V × B)
      → m ≡ answered dec cost a
      → (do (c', _) ← m; some c') ≡ some (laid dec cost a.0)
  first_of m a e = ap (λ r. r >>= λ p. some p.0) e

  perform-laid :
      (s : Ideal K V) (call : Call K V)
      → IsKept cost s
      → IsSmall cost call
      → perform (laid dec cost s) call ≡ some (laid dec cost (ideal_perform s call))
  unfolding perform ideal_perform
  perform-laid s (finding k) kept small = first_of _ _ (find-laid dec cost s k kept)
  perform-laid s (inserting k v) kept small =
      first_of _ _ (insert-laid dec cost s k v kept (omega (arith, kept.machine)))
  perform-laid s (assigning k v) kept small =
      first_of _ _ (insert_or_assign-laid dec cost s k v kept (omega (arith, kept.machine)))
  perform-laid s (erasing k) kept small = first_of _ _ (erase-laid dec cost s k kept)
  perform-laid s (resizing n) kept small = resize-laid dec cost s n kept
  perform-laid s clearing kept small = ap some (clear-laid dec cost s)

  ideal_perform-IsKept :
      (s : Ideal K V) (call : Call K V)
      → IsKept cost s
      → IsSmall cost call
      → IsKept cost (ideal_perform s call)
  unfolding ideal_perform
  ideal_perform-IsKept s (finding k) kept small = ideal_find-IsKept dec cost s k kept
  ideal_perform-IsKept s (inserting k v) kept small = ideal_insert-IsKept dec cost s k v kept
  ideal_perform-IsKept s (assigning k v) kept small =
      ideal_insert_or_assign-IsKept dec cost s k v kept
  ideal_perform-IsKept s (erasing k) kept small = ideal_erase-IsKept dec cost s k kept
  ideal_perform-IsKept s (resizing n) kept small = ideal_resize-IsKept dec cost s n kept small
  ideal_perform-IsKept s clearing kept small = ideal_clear-IsKept dec cost s kept

  perform_all-laid :
      (s : Ideal K V) (calls : List (Call K V))
      → IsKept cost s
      → AreSmall cost calls
      → perform_all (laid dec cost s) calls ≡ some (laid dec cost (ideal_perform_all s calls))
  unfolding perform_all ideal_perform_all
  perform_all-laid s [] kept small = refl
  perform_all-laid s (call ∷ calls) kept small =
      bind_eq (λ c. perform_all c calls) (perform-laid s call kept small.0)
      ∙ perform_all-laid (ideal_perform s call) calls (ideal_perform-IsKept s call kept small.0)
          small.1

  ideal_perform_all-IsKept :
      (s : Ideal K V) (calls : List (Call K V))
      → IsKept cost s
      → AreSmall cost calls
      → IsKept cost (ideal_perform_all s calls)
  unfolding ideal_perform_all
  ideal_perform_all-IsKept s [] kept small = kept
  ideal_perform_all-IsKept s (call ∷ calls) kept small =
      ideal_perform_all-IsKept (ideal_perform s call) calls
        (ideal_perform-IsKept s call kept small.0) small.1

  abbrev pub ideal_empty : ℕ → Bool → Ideal K V
  ideal_empty max_size has_callback = record {
    entries = [];
    max_size = max_size;
    has_callback = has_callback;
    evicted = [];
  }

  -- Any calls of a new cache, whose sizes and costs are below 2 ^ 63, come to their end without
  -- following end() or failing an assertion. The cache that they leave is the layout of the list
  -- that the same calls leave, whose keys are distinct and whose cost is within the maximum size.
  pub perform_all-empty :
      (max_size : ℕ) (has_callback : Bool) (calls : List (Call K V))
      → max_size < 2 ^ 63
      → AreSmall cost calls
      → let s = ideal_perform_all (ideal_empty max_size has_callback) calls in
        (perform_all (empty max_size has_callback) calls ≡ some (laid dec cost s)) × IsKept cost s
  perform_all-empty max_size has_callback calls h small = (
    ap (λ c. perform_all c calls) (empty-laid dec cost max_size has_callback)
        ∙ perform_all-laid s calls kept small,
    ideal_perform_all-IsKept s calls kept small,
  )
    where
      s : Ideal K V
      s = ideal_empty max_size has_callback

      kept : IsKept cost s
      kept = record { distinct = tt; within = omega arith; machine = h }
