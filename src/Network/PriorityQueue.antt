-- ===== src/Network/PriorityQueue.antt =====
-- The class NetworkRequestPriorityQueue of olp-cpp-sdk-core/src/network/NetworkRequestPriorityQueue.h
-- and NetworkRequestPriorityQueue.cpp, and the priority of a request, of NetworkRequest.cpp. Each
-- operation holds the lock from its beginning to its end. A context is not null, since Push() reads
-- its priority.
pub mod Arrival
pub mod Next
pub mod Size
pub mod Tests
use here_olp_edge_sdk_cpp.Prelude.{
  ℕ, zero, suc, ◌+◌, ltb, if◌then◌else◌, Bool, not, Option, none, some, List, [], ◌∷◌, ◌++◌, length,
  get_or, set,
}
use here_olp_edge_sdk_cpp.Prelude.Int.{ℤ, pos, negsuc}

-- PriorityMin and PriorityMax of NetworkRequest
abbrev pub priority_min : ℕ
priority_min = 0

abbrev pub priority_max : ℕ
priority_max = 5

-- NetworkRequest::SetPriority()
unfoldable pub set_priority : ℤ → ℕ
set_priority (negsuc n) = priority_min
set_priority (pos n) = if ltb priority_max n then priority_max else n

-- What the queue reads of a RequestContext: the priority of its request and its id. The rest, with
-- the callbacks, is `body`.
pub record RequestContext {ℓ} (I B : Type ℓ) : Type ℓ where
  pub id : I
  pub priority : ℕ
  pub body : B

module _ {ℓ} {I B : Type ℓ} where
  -- `requests_` of a new queue: kArraySize queues.
  abbrev pub no_requests : List (List (RequestContext I B))
  no_requests = [] ∷ [] ∷ [] ∷ [] ∷ [] ∷ [] ∷ []

  unfoldable pub push :
      List (List (RequestContext I B)) → RequestContext I B → List (List (RequestContext I B))
  push requests context =
      set requests context.priority (get_or requests context.priority [] ++ context ∷ [])

  -- The front of queue `i`, or what the loop gives from the next queue on.
  abbrev pub pop_front :
      List (List (RequestContext I B))
      → ℕ
      → List (RequestContext I B)
      → List (List (RequestContext I B)) × Option (RequestContext I B)
      → List (List (RequestContext I B)) × Option (RequestContext I B)
  pop_front requests i [] next = next
  pop_front requests i (ctx ∷ queue) next = (set requests i queue, some ctx)

  -- The loop of Pop() over the queues below `i`, downwards.
  unfoldable pub pop_from :
      ℕ
      → List (List (RequestContext I B))
      → List (List (RequestContext I B)) × Option (RequestContext I B)
  pop_from zero requests = (requests, none)
  pop_from (suc i) requests = pop_front requests i (get_or requests i []) (pop_from i requests)

  unfoldable pub pop :
      List (List (RequestContext I B))
      → List (List (RequestContext I B)) × Option (RequestContext I B)
  pop requests = pop_from (suc priority_max) requests

  -- `std::accumulate`
  abbrev pub count_from : ℕ → List (List (RequestContext I B)) → ℕ
  count_from count [] = count
  count_from count (queue ∷ queues) = count_from (count + length queue) queues

  unfoldable pub size : List (List (RequestContext I B)) → ℕ
  size requests = count_from 0 requests

  -- `std::copy_if`, and `std::remove_if` with the negated test.
  abbrev pub filter :
      (RequestContext I B → Bool) → List (RequestContext I B) → List (RequestContext I B)
  filter f [] = []
  filter f (ctx ∷ queue) = if f ctx then ctx ∷ filter f queue else filter f queue

  abbrev pub rejecting : (RequestContext I B → Bool) → RequestContext I B → Bool
  rejecting f ctx = not (f ctx)

  -- RemoveIf(): the queues that are left, and the removed contexts.
  unfoldable pub remove_if :
      (RequestContext I B → Bool)
      → List (List (RequestContext I B))
      → List (List (RequestContext I B)) × List (RequestContext I B)
  remove_if f [] = ([], [])
  remove_if f (queue ∷ queues) =
      let (kept, removed) = remove_if f queues in
      (filter (rejecting f) queue ∷ kept, filter f queue ++ removed)
