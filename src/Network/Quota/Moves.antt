-- ===== src/Network/Quota/Moves.antt =====
-- What an operation of the decorator does to each of its groups.
pub mod Group
use here_olp_edge_sdk_cpp.Prelude.{
  ℕ, suc, ◌+◌, ◌-◌, ◌%◌, ◌<◌, ◌≡◌, refl, sym, ap, ◌∙◌, inl, inr, Bool-cases, Option-cases, u64_mod,
  leb, not-leb→lt, if◌then◌else◌, Bool, true, false, Option, none, some, ◌>>=◌, bind_eq, some-inj,
  List, [], ◌∷◌, set, get_elem?,
}
use here_olp_edge_sdk_cpp.Network.PriorityQueue.{RequestContext, push, pop}
use here_olp_edge_sdk_cpp.Network.Quota.{
  ErrorCode, error_none, error_io, error_not_ready, error_no_connection, error_invalid_request,
  error_failed_bind_interface, error_network_interface_option_not_implemented,
  error_network_overload, error_failed_set_ca_cert, error_ca_cert_option_not_implemented, Answer,
  response, call, QuotaQueue, Decorator, send_to, sent, send, cancel_if_pending, cancel,
  cancel_sent, without,
}
use here_olp_edge_sdk_cpp.Network.Quota.Worker.{
  send_request, respond, Visit, goes_on, begins_again, waits, visit_popped, visit, visited,
  visit_all, round, wait,
}
use mathlib.Core.Logic.{ite}
use mathlib.Core.Path.{subst}
use here_olp_edge_sdk_cpp.Network.Quota.Moves.Group.{
  Moved, Moves, answered, cancel_in-Moves, done, failed, more, queued, refused, send_to-Moves,
  set-Moves, stay, taken,
}

module _ {ℓ} {I B R : Type ℓ} (has_callback : RequestContext I B → Bool) where
  send_request-Moved :
      (q : QuotaQueue I B) (queue : List (List (RequestContext I B))) (request : RequestContext I B)
      (signal : Bool) (called : List (RequestContext I B × Answer R)) (code : ErrorCode)
      → q.counter < q.quota
      → Moved q
          (send_request has_callback (record q { queue = queue }) request signal called code).0
  unfolding send_request
  send_request-Moved q queue request signal called error_none h = taken queue request h
  send_request-Moved q queue request signal called error_not_ready h =
      refused (push queue request) h
  send_request-Moved q queue request signal called error_io h = failed queue h
  send_request-Moved q queue request signal called error_no_connection h = failed queue h
  send_request-Moved q queue request signal called error_invalid_request h = failed queue h
  send_request-Moved q queue request signal called error_failed_bind_interface h = failed queue h
  send_request-Moved q queue request signal called error_network_interface_option_not_implemented
        h =
      failed queue h
  send_request-Moved q queue request signal called error_network_overload h = failed queue h
  send_request-Moved q queue request signal called error_failed_set_ca_cert h = failed queue h
  send_request-Moved q queue request signal called error_ca_cert_option_not_implemented h =
      failed queue h

  visit_popped-Moved :
      (q : QuotaQueue I B) (signal : Bool) (called : List (RequestContext I B × Answer R))
      (code : ErrorCode) (popped : List (List (RequestContext I B)) × Option (RequestContext I B))
      → q.counter < q.quota
      → Moved q (visit_popped has_callback q signal called code popped).0
  visit_popped-Moved q signal called code (queue, none) h = queued queue
  visit_popped-Moved q signal called code (queue, some request) h =
      send_request-Moved q queue request signal called code h

  visit-Moved :
      (ready : Bool) (code : ErrorCode) (q : QuotaQueue I B) (signal : Bool)
      (called : List (RequestContext I B × Answer R))
      → Moved q (visit has_callback ready code q signal called).0
  unfolding visit
  visit-Moved false code q signal called = queued q.queue
  visit-Moved true code q signal called = elim (Bool-cases (leb q.quota q.counter)) [
    | inl full ↦
        subst
          (λ (t : Bool).
            Moved q
              (if t
                then (q, signal, called, goes_on)
                else visit_popped has_callback q signal called code (pop q.queue)).0)
          (sym full) (queued q.queue)
    | inr room ↦
        subst
          (λ (t : Bool).
            Moved q
              (if t
                then (q, signal, called, goes_on)
                else visit_popped has_callback q signal called code (pop q.queue)).0)
          (sym room)
          (visit_popped-Moved q signal called code (pop q.queue)
            (not-leb→lt q.quota q.counter room))
  ]

  visited-Moves :
      (q : QuotaQueue I B) (qs : List (QuotaQueue I B))
      (result : QuotaQueue I B × Bool × List (RequestContext I B × Answer R) × Visit)
      (next : Bool
        → List (RequestContext I B × Answer R)
        → List (QuotaQueue I B) × Bool × List (RequestContext I B × Answer R) × Visit)
      → Moved q result.0
      → ((signal : Bool) (called : List (RequestContext I B × Answer R))
          → Moves qs (next signal called).0)
      → Moves (q ∷ qs) (visited has_callback qs result next).0
  visited-Moves q qs (q', signal, called, goes_on) next m h = more m (h signal called)
  visited-Moves q qs (q', signal, called, begins_again) next m h = more m (stay qs)
  visited-Moves q qs (q', signal, called, waits) next m h = more m (stay qs)

  visit_all-Moves :
      (ready : ℕ → Bool) (code : ℕ → ErrorCode) (i : ℕ) (qs : List (QuotaQueue I B)) (signal : Bool)
      (called : List (RequestContext I B × Answer R))
      → Moves qs (visit_all has_callback ready code i qs signal called).0
  unfolding visit_all
  visit_all-Moves ready code i [] signal called = done
  visit_all-Moves ready code i (q ∷ qs) signal called =
      visited-Moves q qs (visit has_callback (ready i) (code i) q signal called) _
        (visit-Moved (ready i) (code i) q signal called)
        (λ signal' called'. visit_all-Moves ready code (suc i) qs signal' called')

  -- One operation of the worker thread, of a user or of the protocol.
  pub data Step (d : Decorator I B R) : Decorator I B R → Type ℓ where
    sending : (context : RequestContext I B) → Step d (send d context).0
    cancelling :
        (dec : Discrete I) (id : I) (protocol_cancels : Bool)
        → Step d (cancel has_callback dec d id protocol_cancels).0
    rounding :
        (ready : ℕ → Bool) (code : ℕ → ErrorCode) → Step d (round has_callback ready code d).0
    responding :
        {d' : Decorator I B R} (i k : ℕ) (r : R)
        → respond has_callback d i k r ≡ some d'
        → Step d d'
    waiting : {d' : Decorator I B R} → wait d ≡ some d' → Step d d'

  protocol-Moves :
      (pending : Decorator I B R × Bool) (protocol_cancels : Bool) (qs : List (QuotaQueue I B))
      → Moves qs pending.0.queues
      → Moves qs (cancel_sent pending protocol_cancels).0.queues
  protocol-Moves (d, true) protocol_cancels qs m = m
  protocol-Moves (d, false) true qs m = m
  protocol-Moves (d, false) false qs m = m

  wait-Moves : (d d' : Decorator I B R) → wait d ≡ some d' → Moves d.queues d'.queues
  unfolding wait
  wait-Moves d d' e = elim (Bool-cases d.is_satisfied) [
    | inl h ↦
        subst (λ (t : Decorator I B R). Moves d.queues t.queues) (some-inj (sym (test h) ∙ e))
          (stay d.queues)
    | inr h ↦ cc (e, test h)
  ]
    where
      test :
          {t : Bool}
          → d.is_satisfied ≡ t
          → wait d ≡ (if t then some (record d { is_satisfied = false }) else none)
      test h = ap (λ (t : Bool). if t then some (record d { is_satisfied = false }) else none) h

  -- The rest of a response, once the group and the request are known.
  respond_to :
      Decorator I B R
      → ℕ
      → ℕ
      → R
      → QuotaQueue I B
      → Option (RequestContext I B)
      → Option (Decorator I B R)
  respond_to d i k r q o = o >>= λ request. some (record {
    queues = set d.queues i (record q {
      counter = (q.counter + u64_mod - 1) % u64_mod;
      outstanding = without k q.outstanding;
    });
    is_satisfied = true;
    called = call has_callback request (response r) d.called;
  })

  respond-Moves :
      (d d' : Decorator I B R) (i k : ℕ) (r : R)
      → respond has_callback d i k r ≡ some d'
      → Moves d.queues d'.queues
  unfolding respond respond_to
  respond-Moves d d' i k r e = elim (Option-cases (get_elem? d.queues i)) [
    | inl no_group ↦ cc (
      e,
      ap
          (λ (o : Option (QuotaQueue I B)).
            o >>= λ q. respond_to d i k r q (get_elem? q.outstanding k))
          no_group,
    )
    | inr (q, group) ↦
        let at_group : respond has_callback d i k r
            ≡ respond_to d i k r q (get_elem? q.outstanding k) =
          bind_eq _ group in
        elim (Option-cases (get_elem? q.outstanding k)) [
          | inl no_request ↦ cc (e, at_group, ap (respond_to d i k r q) no_request)
          | inr (request, known) ↦
              subst (λ (t : Decorator I B R). Moves d.queues t.queues)
                (some-inj (sym (at_group ∙ ap (respond_to d i k r q) known) ∙ e))
                (set-Moves d.queues i q _ group (answered k request known))
        ]
  ]

  sent-Moves :
      (d : Decorator I B R) (o : Option (List (QuotaQueue I B)))
      → ((qs : List (QuotaQueue I B)) → o ≡ some qs → Moves d.queues qs)
      → Moves d.queues (sent d o).0.queues
  sent-Moves d none h = stay d.queues
  sent-Moves d (some qs) h = h qs refl

  pub Step-Moves : {d d' : Decorator I B R} → Step d d' → Moves d.queues d'.queues
  unfolding send cancel cancel_if_pending round
  Step-Moves {d = d} (sending context) =
      sent-Moves d (send_to d.queues context) (send_to-Moves d.queues context)
  Step-Moves {d = d} (cancelling dec id protocol_cancels) =
      protocol-Moves (cancel_if_pending has_callback dec d id) protocol_cancels d.queues
        (cancel_in-Moves (λ request. ite (dec request.id id) true false) d.queues)
  Step-Moves {d = d} (rounding ready code) =
      visit_all-Moves ready code 0 d.queues d.is_satisfied d.called
  Step-Moves {d = d} {d' = d'} (responding i k r e) = respond-Moves d d' i k r e
  Step-Moves {d = d} {d' = d'} (waiting e) = wait-Moves d d' e
