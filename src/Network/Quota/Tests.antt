-- ===== src/Network/Quota/Tests.antt =====
-- NetworkRequestPriorityQueueDecorator on concrete decorators.
use here_olp_edge_sdk_cpp.Prelude.{ℕ, refl, Bool, true, false, [], ◌∷◌, arith}
use here_olp_edge_sdk_cpp.Network.PriorityQueue.{RequestContext, push, pop, pop_from}
use here_olp_edge_sdk_cpp.Network.Quota.{
  QuotaQueue, Decorator, error_none, error_not_ready, decorate, quota_group, send, send_to,
}
use here_olp_edge_sdk_cpp.Network.Quota.Worker.{round, visit, visit_all, send_request}
use here_olp_edge_sdk_cpp.Network.Quota.Moves.{sending, rounding}
use here_olp_edge_sdk_cpp.Network.Quota.Accounting.{
  AreSizes, AreAccounted, Reached, begun, further, IsStuckAt, here, decorate-AreAccounted,
  stuck-forever,
}

abbrev has_callback : RequestContext ℕ ℕ → Bool
has_callback request = true

abbrev request : RequestContext ℕ ℕ
request = record { id = 1; priority = 2; body = 0 }

abbrev one : Decorator ℕ ℕ ℕ
one = decorate 1 []

-- The request is sent, and the protocol is not ready for it.
abbrev refused_once : Decorator ℕ ℕ ℕ
refused_once = (round has_callback (λ i. true) (λ i. error_not_ready) (send one request).0).0

refused_once-Reached : Reached has_callback one refused_once
refused_once-Reached =
    further (further begun (sending request)) (rounding (λ i. true) (λ i. error_not_ready))

none-AreSizes : AreSizes {I = ℕ} {B = ℕ} []
none-AreSizes = tt

-- It is back in the queue, and the counter is at the quota for ever.
refused_once-IsStuckAt : IsStuckAt 0 refused_once.queues
unfolding decorate send send_to round visit_all visit send_request push pop pop_from
refused_once-IsStuckAt = here (record { full = omega arith; idle = refl })

abbrev later : Decorator ℕ ℕ ℕ
later = (round has_callback (λ i. true) (λ i. error_none) refused_once).0

later-Reached : Reached has_callback refused_once later
later-Reached = further begun (rounding (λ i. true) (λ i. error_none))

stuck-forever_example : IsStuckAt 0 later.queues
stuck-forever_example =
    stuck-forever has_callback refused_once later 0 refused_once-IsStuckAt later-Reached

decorate-AreAccounted_example : AreAccounted refused_once.queues
decorate-AreAccounted_example =
    decorate-AreAccounted has_callback 1 [] refused_once (omega arith) none-AreSizes
      refused_once-Reached

abbrev default_group : QuotaQueue ℕ ℕ
default_group = quota_group 1 (λ r. true)

abbrev other_group : QuotaQueue ℕ ℕ
other_group = quota_group 2 (λ r. false)

abbrev two : Decorator ℕ ℕ ℕ
two = record { queues = default_group ∷ other_group ∷ []; is_satisfied = false; called = [] }
