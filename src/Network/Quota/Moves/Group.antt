-- ===== src/Network/Quota/Moves/Group.antt =====
-- What a step of the decorator may do to a group, and the parts of its operations.
use here_olp_edge_sdk_cpp.Prelude.{
  ℕ, zero, suc, ◌+◌, ◌-◌, ◌%◌, ◌<◌, ◌≡◌, refl, sym, ap, ◌∙◌, inl, inr, Bool-cases, u64_mod,
  if◌then◌else◌, Bool, Option, none, some, some-inj, List, [], ◌∷◌, set, get_elem?,
}
use here_olp_edge_sdk_cpp.Network.PriorityQueue.{RequestContext, push, remove_if}
use here_olp_edge_sdk_cpp.Network.Quota.{
  QuotaQueue, send_front, send_to, cancel_front, cancel_in, without,
}
use mathlib.Core.Path.{subst}

module _ {ℓ} {I B : Type ℓ} where
  -- What may happen to a group.
  pub data Moved (q : QuotaQueue I B) : QuotaQueue I B → Type ℓ where
    queued : (queue : List (List (RequestContext I B))) → Moved q (record q { queue = queue })
    taken :
        (queue : List (List (RequestContext I B))) (request : RequestContext I B)
        → q.counter < q.quota
        → Moved q (record q {
          queue = queue;
          counter = (q.counter + 1) % u64_mod;
          outstanding = request ∷ q.outstanding;
        })
    refused :
        (queue : List (List (RequestContext I B)))
        → q.counter < q.quota
        → Moved q (record q { queue = queue; counter = (q.counter + 1) % u64_mod })
    failed :
        (queue : List (List (RequestContext I B)))
        → q.counter < q.quota
        → Moved q (record q {
          queue = queue;
          counter = ((q.counter + 1) % u64_mod + u64_mod - 1) % u64_mod;
        })
    answered :
        (k : ℕ) (request : RequestContext I B)
        → get_elem? q.outstanding k ≡ some request
        → Moved q (record q {
          counter = (q.counter + u64_mod - 1) % u64_mod;
          outstanding = without k q.outstanding;
        })

  pub data Moves : List (QuotaQueue I B) → List (QuotaQueue I B) → Type ℓ where
    done : Moves [] []
    more :
        {q q' : QuotaQueue I B} {qs qs' : List (QuotaQueue I B)}
        → Moved q q'
        → Moves qs qs'
        → Moves (q ∷ qs) (q' ∷ qs')

  pub stay : (qs : List (QuotaQueue I B)) → Moves qs qs
  stay [] = done
  stay (q ∷ qs) = more (queued q.queue) (stay qs)

  -- Send()
  send_front-Moves :
      (q : QuotaQueue I B) (qs : List (QuotaQueue I B)) (context : RequestContext I B)
      (behind : Option (List (QuotaQueue I B))) (qs' : List (QuotaQueue I B))
      → ((rs : List (QuotaQueue I B)) → behind ≡ some rs → Moves qs rs)
      → send_front q qs context behind ≡ some qs'
      → Moves (q ∷ qs) qs'
  send_front-Moves q qs context none qs' h e = elim (Bool-cases (q.selector context)) [
    | inl t ↦
        subst (Moves (q ∷ qs)) (some-inj (sym (by_test t) ∙ e))
          (more (queued (push q.queue context)) (stay qs))
    | inr f ↦ cc (e, by_test f)
  ]
    where
      by_test :
          {t : Bool}
          → q.selector context ≡ t
          → send_front q qs context none
            ≡ (if t then some (record q { queue = push q.queue context } ∷ qs) else none)
      by_test p =
          ap
            (λ (t : Bool).
              if t then some (record q { queue = push q.queue context } ∷ qs) else none)
            p
  send_front-Moves q qs context (some rs) qs' h e =
      subst (Moves (q ∷ qs)) (some-inj e) (more (queued q.queue) (h rs refl))

  pub send_to-Moves :
      (qs : List (QuotaQueue I B)) (context : RequestContext I B) (qs' : List (QuotaQueue I B))
      → send_to qs context ≡ some qs'
      → Moves qs qs'
  unfolding send_to
  send_to-Moves [] context qs' e = cc
  send_to-Moves (q ∷ qs) context qs' e =
      send_front-Moves q qs context (send_to qs context) qs' (send_to-Moves qs context) e

  -- CancelIfPending()
  cancel_front-Moves :
      (q : QuotaQueue I B) (qs : List (QuotaQueue I B))
      (removed : List (List (RequestContext I B)) × List (RequestContext I B))
      (next : List (QuotaQueue I B) × List (RequestContext I B))
      → Moves qs next.0
      → Moves (q ∷ qs) (cancel_front q qs removed next).0
  cancel_front-Moves q qs (queue, []) next m = more (queued queue) m
  cancel_front-Moves q qs (queue, r ∷ rs) next m = more (queued queue) (stay qs)

  pub cancel_in-Moves :
      (is_it : RequestContext I B → Bool) (qs : List (QuotaQueue I B))
      → Moves qs (cancel_in is_it qs).0
  unfolding cancel_in
  cancel_in-Moves is_it [] = done
  cancel_in-Moves is_it (q ∷ qs) =
      cancel_front-Moves q qs (remove_if is_it q.queue) (cancel_in is_it qs)
        (cancel_in-Moves is_it qs)

  -- The protocol's callback.
  pub set-Moves :
      (qs : List (QuotaQueue I B)) (i : ℕ) (q q' : QuotaQueue I B)
      → get_elem? qs i ≡ some q
      → Moved q q'
      → Moves qs (set qs i q')
  set-Moves [] i q q' e m = cc
  set-Moves (r ∷ qs) zero q q' e m = more (subst (λ t. Moved t q') (sym (some-inj e)) m) (stay qs)
  set-Moves (r ∷ qs) (suc i) q q' e m = more (queued r.queue) (set-Moves qs i q q' e m)
