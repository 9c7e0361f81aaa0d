-- ===== src/Network/Quota/Worker.antt =====
-- The worker thread of NetworkRequestPriorityQueueDecorator, and the callback that it gives to the
-- protocol.
use here_olp_edge_sdk_cpp.Prelude.{
  ℕ, suc, ◌+◌, ◌-◌, ◌%◌, u64_mod, leb, if◌then◌else◌, Bool, true, false, Option, none, some, ◌>>=◌,
  List, [], ◌∷◌, set, get_elem?,
}
use here_olp_edge_sdk_cpp.Network.PriorityQueue.{RequestContext, push, pop}
use here_olp_edge_sdk_cpp.Network.Quota.{
  ErrorCode, error_none, error_not_ready, Answer, response, handle_synchronous_network_errors,
  QuotaQueue, Decorator, call, without,
}

-- What a visit of a group leads to: the thread goes on to the next one, begins again, or waits for
-- the signal and begins again.
pub data Visit : Type 0 where
  goes_on : Visit
  begins_again : Visit
  waits : Visit

abbrev pub is_waiting : Visit → Bool
is_waiting goes_on = true
is_waiting begins_again = false
is_waiting waits = true

module _ {ℓ} {I B R : Type ℓ} where
  module _ (has_callback : RequestContext I B → Bool) where
    -- SendRequest() of a group, and its signal: the callback of a request that the protocol takes is
    -- the protocol's.
    unfoldable pub send_request :
        QuotaQueue I B
        → RequestContext I B
        → Bool
        → List (RequestContext I B × Answer R)
        → ErrorCode
        → QuotaQueue I B × Bool × List (RequestContext I B × Answer R)
    send_request q request signal called error_none = (
      record q { counter = (q.counter + 1) % u64_mod; outstanding = request ∷ q.outstanding },
      signal,
      called,
    )
    send_request q request signal called error_not_ready = (
      record q { counter = (q.counter + 1) % u64_mod; queue = push q.queue request },
      signal,
      called,
    )
    send_request q request signal called error_code = (
      record q { counter = ((q.counter + 1) % u64_mod + u64_mod - 1) % u64_mod },
      true,
      call has_callback request (handle_synchronous_network_errors error_code) called,
    )

    -- The callback that SendRequest() gives to the protocol, of outstanding request `k` of group `i`;
    -- `none` where there is no such request.
    unfoldable pub respond : Decorator I B R → ℕ → ℕ → R → Option (Decorator I B R)
    respond d i k r = do
      q ← get_elem? d.queues i
      request ← get_elem? q.outstanding k
      some (record {
        queues = set d.queues i (record q {
          counter = (q.counter + u64_mod - 1) % u64_mod;
          outstanding = without k q.outstanding;
        });
        is_satisfied = true;
        called = call has_callback request (response r) d.called;
      })

    abbrev pub visit_popped :
        QuotaQueue I B
        → Bool
        → List (RequestContext I B × Answer R)
        → ErrorCode
        → List (List (RequestContext I B)) × Option (RequestContext I B)
        → QuotaQueue I B × Bool × List (RequestContext I B × Answer R) × Visit
    visit_popped q signal called code (queue, none) =
        (record q { queue = queue }, signal, called, goes_on)
    visit_popped q signal called code (queue, some request) =
        let (q', signal', called') =
          send_request (record q { queue = queue }) request signal called code in
        (q', signal', called', begins_again)

    -- The test of the worker thread on a group, where `ready` and `code` are what the protocol says.
    unfoldable pub visit :
        Bool
        → ErrorCode
        → QuotaQueue I B
        → Bool
        → List (RequestContext I B × Answer R)
        → QuotaQueue I B × Bool × List (RequestContext I B × Answer R) × Visit
    visit false code q signal called = (q, signal, called, waits)
    visit true code q signal called =
        if leb q.quota q.counter
        then (q, signal, called, goes_on)
        else visit_popped q signal called code (pop q.queue)

    -- `all_of` over the groups from the first on; `ready` and `code` are the protocol's, by group.
    abbrev pub visited :
        List (QuotaQueue I B)
        → QuotaQueue I B × Bool × List (RequestContext I B × Answer R) × Visit
        → (Bool
            → List (RequestContext I B × Answer R)
            → List (QuotaQueue I B) × Bool × List (RequestContext I B × Answer R) × Visit)
        → List (QuotaQueue I B) × Bool × List (RequestContext I B × Answer R) × Visit
    visited qs (q, signal, called, goes_on) next =
        let (qs', signal', called', v) = next signal called in (q ∷ qs', signal', called', v)
    visited qs (q, signal, called, v) next = (q ∷ qs, signal, called, v)

    unfoldable pub visit_all :
        (ℕ → Bool)
        → (ℕ → ErrorCode)
        → ℕ
        → List (QuotaQueue I B)
        → Bool
        → List (RequestContext I B × Answer R)
        → List (QuotaQueue I B) × Bool × List (RequestContext I B × Answer R) × Visit
    visit_all ready code i [] signal called = ([], signal, called, goes_on)
    visit_all ready code i (q ∷ qs) signal called =
        visited qs (visit (ready i) (code i) q signal called)
          (λ signal' called'. visit_all ready code (suc i) qs signal' called')

    -- One round of the worker thread, up to its wait for the signal: whether it waits.
    unfoldable pub round : (ℕ → Bool) → (ℕ → ErrorCode) → Decorator I B R → Decorator I B R × Bool
    round ready code d =
        let (queues, signal, called, v) = visit_all ready code 0 d.queues d.is_satisfied d.called in
        (record { queues = queues; is_satisfied = signal; called = called }, is_waiting v)

  -- Signal::Wait(), when it returns.
  unfoldable pub wait : Decorator I B R → Option (Decorator I B R)
  wait d = if d.is_satisfied then some (record d { is_satisfied = false }) else none
