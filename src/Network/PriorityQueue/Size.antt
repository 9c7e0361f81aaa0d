-- ===== src/Network/PriorityQueue/Size.antt =====
-- Size() counts the requests that have arrived.
use here_olp_edge_sdk_cpp.Prelude.{
  ℕ, zero, suc, ◌+◌, ◌≡◌, refl, ap, ◌∙◌, ltb, lt→ltb, ◌==◌, if◌then◌else◌, Bool, List, [], ◌∷◌,
  length, get_or, arith,
}
use here_olp_edge_sdk_cpp.Network.PriorityQueue.{RequestContext, size, count_from, filter}
use here_olp_edge_sdk_cpp.Network.PriorityQueue.Arrival.{Holds, AllBelow, has_priority}

module _ {ℓ} {I B : Type ℓ} where
  -- The lengths of the queues below `n`.
  tally : ℕ → (ℕ → List (RequestContext I B)) → ℕ
  tally zero q = 0
  tally (suc n) q = tally n q + length (q n)

  tally-front :
      (n : ℕ) (q : ℕ → List (RequestContext I B))
      → tally (suc n) q ≡ length (q 0) + tally n (λ p. q (suc p))
  unfolding tally
  tally-front zero q = omega arith
  tally-front (suc n) q = omega (arith, tally-front n q)

  tally-same :
      (n : ℕ) (q r : ℕ → List (RequestContext I B)) → ((p : ℕ) → q p ≡ r p) → tally n q ≡ tally n r
  unfolding tally
  tally-same zero q r h = refl
  tally-same (suc n) q r h = omega (arith, tally-same n q r h, ap length (h n))

  count_from-tally :
      (count : ℕ) (requests : List (List (RequestContext I B)))
      → count_from count requests ≡ count + tally (length requests) (λ p. get_or requests p [])
  unfolding tally
  count_from-tally count [] = omega arith
  count_from-tally count (queue ∷ queues) = omega (
    arith,
    count_from-tally (count + length queue) queues,
    tally-front (length queues) (λ p. get_or (queue ∷ queues) p []),
  )

  filter-cons :
      (n : ℕ) (x : RequestContext I B) (xs : List (RequestContext I B))
      → length (filter (has_priority n) (x ∷ xs))
        ≡ length (filter (has_priority n) xs) + (if x.priority == n then 1 else 0)
  filter-cons n x xs = ground arith

  tally-cons :
      (n : ℕ) (x : RequestContext I B) (xs : List (RequestContext I B))
      → tally n (λ p. filter (has_priority p) (x ∷ xs))
        ≡ tally n (λ p. filter (has_priority p) xs) + (if ltb x.priority n then 1 else 0)
  unfolding tally
  tally-cons zero x xs = ground arith
  tally-cons (suc n) x xs = ground (arith, tally-cons n x xs, filter-cons n x xs)

  tally-nil : (n : ℕ) (q : ℕ → List (RequestContext I B)) → ((p : ℕ) → q p ≡ []) → tally n q ≡ 0
  unfolding tally
  tally-nil zero q h = refl
  tally-nil (suc n) q h = omega (arith, tally-nil n q h, ap length (h n))

  tally-arrived :
      (n : ℕ) (arrived : List (RequestContext I B))
      → AllBelow n arrived
      → tally n (λ p. filter (has_priority p) arrived) ≡ length arrived
  tally-arrived n [] b = tally-nil n _ (λ p. refl)
  tally-arrived n (x ∷ xs) b =
      tally-cons n x xs
      ∙ ap (λ (t : Bool). tally n (λ p. filter (has_priority p) xs) + (if t then 1 else 0))
          (lt→ltb x.priority n b.0)
      ∙ omega (arith, tally-arrived n xs b.1)

  -- Size() of a queue that holds arrived requests, whose priorities are the queue's, is their number.
  size-arrived :
      (requests : List (List (RequestContext I B))) (arrived : List (RequestContext I B))
      → Holds requests arrived
      → AllBelow 6 arrived
      → size requests ≡ length arrived
  unfolding size
  size-arrived requests arrived holds b =
      count_from-tally 0 requests
      ∙ omega (
        arith,
        ap (λ n. tally n (λ p. get_or requests p [])) holds.slots,
        tally-same 6 _ _ holds.queues,
        tally-arrived 6 arrived b,
      )
