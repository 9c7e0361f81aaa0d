-- ===== src/Network/Quota.antt =====
-- The class NetworkRequestPriorityQueueDecorator of
-- olp-cpp-sdk-core/include/olp/core/network/NetworkRequestPriorityQueueDecorator.h and
-- olp-cpp-sdk-core/src/network/NetworkRequestPriorityQueueDecorator.cpp, and
-- HandleSynchronousNetworkErrors() of NetworkProtocol.cpp beside it. The decorated protocol is not
-- code of this file: what Ready(), Send() and Cancel() of it return is an argument, and a group
-- keeps in `outstanding` the requests whose callback the protocol holds. A program is a sequence of
-- the operations below, by the worker thread, by the users and by the protocol.
pub mod Worker
pub mod Moves
pub mod Accounting
pub mod Sending
pub mod Tests
use here_olp_edge_sdk_cpp.Prelude.{
  ℕ, zero, suc, ◌+◌, ◌-◌, ◌%◌, if◌then◌else◌, Bool, true, false, ◌&&◌, Option, none, some, List, [],
  ◌∷◌, ◌++◌,
}
use mathlib.Core.Logic.{ite}
use here_olp_edge_sdk_cpp.Network.PriorityQueue.{RequestContext, no_requests, push, remove_if}

-- NetworkProtocol::ErrorCode
pub data ErrorCode : Type 0 where
  error_none : ErrorCode
  error_io : ErrorCode
  error_not_ready : ErrorCode
  error_no_connection : ErrorCode
  error_invalid_request : ErrorCode
  error_failed_bind_interface : ErrorCode
  error_network_interface_option_not_implemented : ErrorCode
  error_network_overload : ErrorCode
  error_failed_set_ca_cert : ErrorCode
  error_ca_cert_option_not_implemented : ErrorCode

-- What a callback is given: the protocol's response, or a response that is made here.
pub data Answer {ℓ} (R : Type ℓ) : Type ℓ where
  response : R → Answer R
  cancelled : Answer R
  invalid_url_error : Answer R
  offline : Answer R
  io_error : Answer R
  unknown_error : Answer R

-- HandleSynchronousNetworkErrors()
unfoldable pub handle_synchronous_network_errors {ℓ} : {R : Type ℓ} → ErrorCode → Answer R
handle_synchronous_network_errors error_invalid_request = invalid_url_error
handle_synchronous_network_errors error_no_connection = offline
handle_synchronous_network_errors error_io = io_error
handle_synchronous_network_errors _ = unknown_error

pub record QuotaQueue {ℓ} (I B : Type ℓ) : Type ℓ where
  pub queue : List (List (RequestContext I B))
  pub quota : ℕ
  pub selector : RequestContext I B → Bool
  pub counter : ℕ
  pub outstanding : List (RequestContext I B)

-- `called` holds the calls of the requests' callbacks, the latest first.
pub record Decorator {ℓ} (I B R : Type ℓ) : Type ℓ where
  pub queues : List (QuotaQueue I B)
  pub is_satisfied : Bool
  pub called : List (RequestContext I B × Answer R)

module _ {ℓ} {I B : Type ℓ} where
  -- AddQuotaGroup()
  abbrev pub quota_group : ℕ → (RequestContext I B → Bool) → QuotaQueue I B
  quota_group quota selector = record {
    queue = no_requests;
    quota = quota;
    selector = selector;
    counter = 0;
    outstanding = [];
  }

  abbrev pub add_quota_groups : List (ℕ × (RequestContext I B → Bool)) → List (QuotaQueue I B)
  add_quota_groups [] = []
  add_quota_groups (config ∷ configs) = quota_group config.0 config.1 ∷ add_quota_groups configs

  -- The loop of Send() from the back: `accepted` is the answer of the queues behind.
  abbrev pub send_front :
      QuotaQueue I B
      → List (QuotaQueue I B)
      → RequestContext I B
      → Option (List (QuotaQueue I B))
      → Option (List (QuotaQueue I B))
  send_front q qs context (some qs') = some (q ∷ qs')
  send_front q qs context none =
      if q.selector context then some (record q { queue = push q.queue context } ∷ qs) else none

  unfoldable pub send_to :
      List (QuotaQueue I B) → RequestContext I B → Option (List (QuotaQueue I B))
  send_to [] context = none
  send_to (q ∷ qs) context = send_front q qs context (send_to qs context)

  -- The requests without the one at `k`.
  abbrev pub without : ℕ → List (RequestContext I B) → List (RequestContext I B)
  without k [] = []
  without zero (x ∷ xs) = xs
  without (suc k) (x ∷ xs) = x ∷ without k xs

  -- CancelIfPending(): `any_of` over the groups.
  abbrev pub cancel_front :
      QuotaQueue I B
      → List (QuotaQueue I B)
      → List (List (RequestContext I B)) × List (RequestContext I B)
      → List (QuotaQueue I B) × List (RequestContext I B)
      → List (QuotaQueue I B) × List (RequestContext I B)
  cancel_front q qs (queue, []) (qs', rs) = (record q { queue = queue } ∷ qs', rs)
  cancel_front q qs (queue, r ∷ rs) next = (record q { queue = queue } ∷ qs, r ∷ rs)

  unfoldable pub cancel_in :
      (RequestContext I B → Bool)
      → List (QuotaQueue I B)
      → List (QuotaQueue I B) × List (RequestContext I B)
  cancel_in is_it [] = ([], [])
  cancel_in is_it (q ∷ qs) = cancel_front q qs (remove_if is_it q.queue) (cancel_in is_it qs)

  abbrev pub is_any : List (RequestContext I B) → Bool
  is_any [] = false
  is_any (r ∷ rs) = true

module _ {ℓ} {I B R : Type ℓ} where
  -- The constructor: the default group, then the others.
  unfoldable pub decorate : ℕ → List (ℕ × (RequestContext I B → Bool)) → Decorator I B R
  decorate default_quota_group_size queue_configs = record {
    queues =
        quota_group default_quota_group_size (λ request. true) ∷ add_quota_groups queue_configs;
    is_satisfied = false;
    called = [];
  }

  abbrev pub sent : Decorator I B R → Option (List (QuotaQueue I B)) → Decorator I B R × ErrorCode
  sent d none = (d, error_network_overload)
  sent d (some queues) = (record d { queues = queues; is_satisfied = true }, error_none)

  -- Send()
  unfoldable pub send : Decorator I B R → RequestContext I B → Decorator I B R × ErrorCode
  send d context = sent d (send_to d.queues context)

  -- Cancel() after CancelIfPending(), which says whether it removed the request from a queue.
  abbrev pub cancel_sent : Decorator I B R × Bool → Bool → Decorator I B R × Bool
  cancel_sent (d, true) protocol_cancels = (d, true)
  cancel_sent (d, false) true = (record d { is_satisfied = true }, true)
  cancel_sent (d, false) false = (d, false)

  module _ (has_callback : RequestContext I B → Bool) where
    abbrev pub call :
        RequestContext I B
        → Answer R
        → List (RequestContext I B × Answer R)
        → List (RequestContext I B × Answer R)
    call context answer called = if has_callback context then (context, answer) ∷ called else called

    abbrev pub call_each :
        List (RequestContext I B)
        → Answer R
        → List (RequestContext I B × Answer R)
        → List (RequestContext I B × Answer R)
    call_each [] answer called = called
    call_each (context ∷ contexts) answer called =
        call_each contexts answer (call context answer called)

    unfoldable pub cancel_if_pending : Discrete I → Decorator I B R → I → Decorator I B R × Bool
    cancel_if_pending dec d id =
        let (queues, removed) =
          cancel_in (λ request. ite (dec request.id id) true false) d.queues in
        (
          record d { queues = queues; called = call_each removed cancelled d.called },
          is_any removed,
        )

    -- Cancel(), where `protocol_cancels` is what Cancel() of the protocol returns.
    unfoldable pub cancel : Discrete I → Decorator I B R → I → Bool → Decorator I B R × Bool
    cancel dec d id protocol_cancels = cancel_sent (cancel_if_pending dec d id) protocol_cancels
