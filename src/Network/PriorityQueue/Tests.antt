-- ===== src/Network/PriorityQueue/Tests.antt =====
-- NetworkRequestPriorityQueue on concrete queues.
use here_olp_edge_sdk_cpp.Prelude.{ℕ, Bool, List, [], ◌∷◌, arith, ◌==◌}
use here_olp_edge_sdk_cpp.Network.PriorityQueue.{RequestContext, no_requests, push, pop}
use here_olp_edge_sdk_cpp.Network.PriorityQueue.Arrival.{
  Holds, Holds-no_requests, AllBelow, push-arrives,
}
use here_olp_edge_sdk_cpp.Network.PriorityQueue.Next.{Next, pop-Next}

abbrev low : RequestContext ℕ ℕ
low = record { id = 1; priority = 2; body = 0 }

abbrev high : RequestContext ℕ ℕ
high = record { id = 2; priority = 5; body = 0 }

abbrev two : List (RequestContext ℕ ℕ)
two = low ∷ high ∷ []

abbrev queue : List (List (RequestContext ℕ ℕ))
queue = push (push no_requests low) high

queue-Holds : Holds queue two
queue-Holds =
    push-arrives (push no_requests low) (low ∷ []) high (omega arith)
      (push-arrives no_requests [] low (omega arith) Holds-no_requests)

two-AllBelow : AllBelow 6 two
two-AllBelow = (omega arith, (omega arith, tt))

abbrev is_first : RequestContext ℕ ℕ → Bool
is_first request = request.id == 1

pop-Next_example : Next two (pop queue)
pop-Next_example = pop-Next queue two queue-Holds two-AllBelow
