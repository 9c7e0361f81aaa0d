-- ===== src/Network/Quota/Sending.antt =====
-- The group that Send() gives a request to.
use here_olp_edge_sdk_cpp.Prelude.{
  ◌≡◌, refl, ap, ◌∙◌, Bool, true, false, if◌then◌else◌, Option, none, some, List, [], ◌∷◌, ◌++◌, ℕ,
}
use here_olp_edge_sdk_cpp.Network.PriorityQueue.{RequestContext, push}
use here_olp_edge_sdk_cpp.Network.Quota.{
  QuotaQueue, Decorator, error_none, decorate, send, send_to, send_front, sent,
}
use here_olp_edge_sdk_cpp.Network.Quota.Moves.{Step-Moves}
use here_olp_edge_sdk_cpp.Network.Quota.Moves.Group.{
  Moved, Moves, done, more, queued, taken, refused, failed, answered,
}
use here_olp_edge_sdk_cpp.Network.Quota.Accounting.{Reached, begun, further}

module _ {ℓ} {I B : Type ℓ} where
  abbrev pub RejectedBy : RequestContext I B → List (QuotaQueue I B) → Type 0
  RejectedBy context [] = Unit
  RejectedBy context (q ∷ qs) = (q.selector context ≡ false) × RejectedBy context qs

  chosen :
      (q : QuotaQueue I B) (qs : List (QuotaQueue I B)) (context : RequestContext I B) {t : Bool}
      → q.selector context ≡ t
      → send_front q qs context none
        ≡ (if t then some (record q { queue = push q.queue context } ∷ qs) else none)
  chosen q qs context e =
      ap (λ (t : Bool). if t then some (record q { queue = push q.queue context } ∷ qs) else none) e

  send_to-rejected :
      (qs : List (QuotaQueue I B)) (context : RequestContext I B)
      → RejectedBy context qs
      → send_to qs context ≡ none
  unfolding send_to
  send_to-rejected [] context r = refl
  send_to-rejected (q ∷ qs) context r =
      ap (send_front q qs context) (send_to-rejected qs context r.1) ∙ chosen q qs context r.0

  send_to-last :
      (before : List (QuotaQueue I B)) (q : QuotaQueue I B) (behind : List (QuotaQueue I B))
      (context : RequestContext I B)
      → q.selector context ≡ true
      → RejectedBy context behind
      → send_to (before ++ q ∷ behind) context
        ≡ some (before ++ record q { queue = push q.queue context } ∷ behind)
  unfolding send_to
  send_to-last [] q behind context e r =
      ap (send_front q behind context) (send_to-rejected behind context r)
      ∙ chosen q behind context e
  send_to-last (p ∷ before) q behind context e r =
      ap (send_front p (before ++ q ∷ behind) context) (send_to-last before q behind context e r)

  -- The selectors stay.
  Moved-selector : {q q' : QuotaQueue I B} → Moved q q' → q'.selector ≡ q.selector
  Moved-selector (queued queue) = refl
  Moved-selector (taken queue request h) = refl
  Moved-selector (refused queue h) = refl
  Moved-selector (failed queue h) = refl
  Moved-selector (answered k request e) = refl

  -- The first group takes every request.
  data TakesAll : List (QuotaQueue I B) → Type ℓ where
    takes :
        {q : QuotaQueue I B} {qs : List (QuotaQueue I B)}
        → ((context : RequestContext I B) → q.selector context ≡ true)
        → TakesAll (q ∷ qs)

  Moves-TakesAll : {qs qs' : List (QuotaQueue I B)} → Moves qs qs' → TakesAll qs → TakesAll qs'
  Moves-TakesAll done t = t
  Moves-TakesAll (more m ms) (takes h) =
      takes (λ context. ap (λ f. f context) (Moved-selector m) ∙ h context)

module _ {ℓ} {I B R : Type ℓ} where
  -- Send() gives a request to the last group whose selector accepts it, sets the signal, and
  -- changes nothing else.
  send-last :
      (d : Decorator I B R) (before : List (QuotaQueue I B)) (q : QuotaQueue I B)
      (behind : List (QuotaQueue I B)) (context : RequestContext I B)
      → d.queues ≡ before ++ q ∷ behind
      → q.selector context ≡ true
      → RejectedBy context behind
      → send d context ≡ (
        record d {
          queues = before ++ record q { queue = push q.queue context } ∷ behind;
          is_satisfied = true;
        },
        error_none,
      )
  unfolding send
  send-last d before q behind context p e r =
      ap (sent d) (ap (λ qs. send_to qs context) p ∙ send_to-last before q behind context e r)

module _ {ℓ} {I B R : Type ℓ} (has_callback : RequestContext I B → Bool) where
  Reached-TakesAll :
      {start d : Decorator I B R}
      → Reached has_callback start d
      → TakesAll start.queues
      → TakesAll d.queues
  Reached-TakesAll begun t = t
  Reached-TakesAll (further reached step) t =
      Moves-TakesAll (Step-Moves has_callback step) (Reached-TakesAll reached t)

  taken_front :
      (d : Decorator I B R) (q : QuotaQueue I B) (qs : List (QuotaQueue I B))
      (context : RequestContext I B) (behind : Option (List (QuotaQueue I B)))
      → q.selector context ≡ true
      → (sent d (send_front q qs context behind)).1 ≡ error_none
  taken_front d q qs context none e = ap (λ o. (sent d o).1) (chosen q qs context e)
  taken_front d q qs context (some qs') e = refl

  accepted :
      (d : Decorator I B R) (qs : List (QuotaQueue I B)) (context : RequestContext I B)
      → TakesAll qs
      → (sent d (send_to qs context)).1 ≡ error_none
  unfolding send_to
  accepted d [] context t = elim t [ ]
  accepted d (q ∷ qs) context (takes h) =
      taken_front d q qs context (send_to qs context) (h context)

  -- Whatever has been done with a new decorator, Send() accepts every request: it is never
  -- overloaded, since the default group takes what no other does.
  send-error_none :
      (default_quota_group_size : ℕ) (queue_configs : List (ℕ × (RequestContext I B → Bool)))
      (d : Decorator I B R) (context : RequestContext I B)
      → Reached has_callback (decorate default_quota_group_size queue_configs) d
      → (send d context).1 ≡ error_none
  unfolding send decorate
  send-error_none default_quota_group_size queue_configs d context reached =
      accepted d d.queues context (Reached-TakesAll reached (takes (λ c. refl)))
