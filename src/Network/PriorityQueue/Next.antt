-- ===== src/Network/PriorityQueue/Next.antt =====
-- Pop() takes the first arrived of the requests with the highest priority, and Size() counts all.
use here_olp_edge_sdk_cpp.Prelude.{
  ℕ, zero, suc, ◌<◌, ◌≤◌, ◌≡◌, refl, sym, ap, ◌∙◌, ◌≢◌, inl, inr, ◌==◌, eq_cases, if◌then◌else◌,
  Option, none, some, List, [], ◌∷◌, ◌++◌, get_or, set, arith,
}
use here_olp_edge_sdk_cpp.Network.PriorityQueue.{RequestContext, pop_front, pop_from, pop, filter}
use here_olp_edge_sdk_cpp.Network.PriorityQueue.Arrival.{
  Holds, Holds-set, AllBelow, has_priority, filter_hit, filter_miss,
}
use mathlib.Core.Path.{subst}

module _ {ℓ} {I B : Type ℓ} where
  -- What a Pop() of the arrived requests may give.
  pub data Next (arrived : List (RequestContext I B))
      : List (List (RequestContext I B)) × Option (RequestContext I B) → Type ℓ where
    idle :
        {requests : List (List (RequestContext I B))}
        → arrived ≡ []
        → Holds requests []
        → Next arrived (requests, none)
    served :
        {requests : List (List (RequestContext I B))} (before : List (RequestContext I B))
        (ctx : RequestContext I B) (after : List (RequestContext I B))
        → arrived ≡ before ++ ctx ∷ after
        → AllBelow ctx.priority before
        → AllBelow (suc ctx.priority) after
        → Holds requests (before ++ after)
        → Next arrived (requests, some ctx)

  record Split (i : ℕ) (arrived : List (RequestContext I B)) (ctx : RequestContext I B)
      (queue : List (RequestContext I B)) : Type ℓ where
    before : List (RequestContext I B)
    after : List (RequestContext I B)
    parts : arrived ≡ before ++ ctx ∷ after
    priority : ctx.priority ≡ i
    first : AllBelow i before
    later : AllBelow (suc i) after
    queue_left : queue ≡ filter (has_priority i) (before ++ after)
    others :
        (p : ℕ)
        → i ≢ p
        → filter (has_priority p) arrived ≡ filter (has_priority p) (before ++ after)

  none-AllBelow :
      (i : ℕ) (arrived : List (RequestContext I B))
      → AllBelow (suc i) arrived
      → filter (has_priority i) arrived ≡ []
      → AllBelow i arrived
  none-AllBelow i [] b e = tt
  none-AllBelow i (x ∷ xs) b e = elim (eq_cases x.priority i) [
    | inl h ↦ cc (e, filter_hit i x xs h)
    | inr h ↦ (omega (arith, h, b.0), none-AllBelow i xs b.1 (sym (filter_miss i x xs h) ∙ e))
  ]

  Split-hit :
      (i : ℕ) (x : RequestContext I B) (xs : List (RequestContext I B))
      → AllBelow (suc i) xs
      → x.priority ≡ i
      → Split i (x ∷ xs) x (filter (has_priority i) xs)
  Split-hit i x xs b h = record {
    before = [];
    after = xs;
    parts = refl;
    priority = h;
    first = tt;
    later = b;
    queue_left = refl;
    others = λ p ne. filter_miss p x xs (λ r. ne (sym h ∙ r));
  }

  Split-miss :
      (i : ℕ) (x : RequestContext I B) (xs : List (RequestContext I B)) (ctx : RequestContext I B)
      (queue : List (RequestContext I B))
      → x.priority < suc i
      → x.priority ≢ i
      → Split i xs ctx queue
      → Split i (x ∷ xs) ctx queue
  Split-miss i x xs ctx queue b h s = record {
    before = x ∷ s.before;
    after = s.after;
    parts = ap (◌∷◌ x) s.parts;
    priority = s.priority;
    first = (omega (arith, h, b), s.first);
    later = s.later;
    queue_left = s.queue_left ∙ sym (filter_miss i x (s.before ++ s.after) h);
    others = λ p ne.
        ap (λ (l : List (RequestContext I B)). if x.priority == p then x ∷ l else l)
          (s.others p ne);
  }

  Split-at :
      (i : ℕ) (arrived : List (RequestContext I B)) (ctx : RequestContext I B)
      (queue : List (RequestContext I B))
      → AllBelow (suc i) arrived
      → filter (has_priority i) arrived ≡ ctx ∷ queue
      → Split i arrived ctx queue
  Split-at i [] ctx queue b e = cc
  Split-at i (x ∷ xs) ctx queue b e = elim (eq_cases x.priority i) [
    | inl h ↦
        let p : x ∷ filter (has_priority i) xs ≡ ctx ∷ queue = sym (filter_hit i x xs h) ∙ e in
        subst (λ (l : RequestContext I B × List (RequestContext I B)). Split i (x ∷ xs) l.0 l.1)
          (both p) (Split-hit i x xs b.1 h)
    | inr h ↦
        Split-miss i x xs ctx queue b.0 h
          (Split-at i xs ctx queue b.1 (sym (filter_miss i x xs h) ∙ e))
  ]
    where
      uncons : List (RequestContext I B) → RequestContext I B × List (RequestContext I B)
      uncons [] = (x, xs)
      uncons (y ∷ ys) = (y, ys)

      both :
          {y z : RequestContext I B} {ys zs : List (RequestContext I B)}
          → y ∷ ys ≡ z ∷ zs
          → uncons (y ∷ ys) ≡ uncons (z ∷ zs)
      both p = ap uncons p

  served_at :
      (requests : List (List (RequestContext I B))) (arrived : List (RequestContext I B)) (i : ℕ)
      (ctx : RequestContext I B) (queue : List (RequestContext I B))
      → i < 6
      → Holds requests arrived
      → Split i arrived ctx queue
      → Next arrived (set requests i queue, some ctx)
  served_at requests arrived i ctx queue h holds s =
      served s.before ctx s.after s.parts
        (subst (λ n. AllBelow n s.before) (sym s.priority) s.first)
        (subst (λ n. AllBelow (suc n) s.after) (sym s.priority) s.later)
        (Holds-set requests arrived (s.before ++ s.after) i queue h holds s.queue_left s.others)

  pop_front-Next :
      (requests : List (List (RequestContext I B))) (arrived : List (RequestContext I B)) (i : ℕ)
      (queue : List (RequestContext I B))
      (next : List (List (RequestContext I B)) × Option (RequestContext I B))
      → i < 6
      → Holds requests arrived
      → AllBelow (suc i) arrived
      → queue ≡ filter (has_priority i) arrived
      → (AllBelow i arrived → Next arrived next)
      → Next arrived (pop_front requests i queue next)
  pop_front-Next requests arrived i [] next h holds b e go = go (none-AllBelow i arrived b (sym e))
  pop_front-Next requests arrived i (ctx ∷ queue) next h holds b e go =
      served_at requests arrived i ctx queue h holds (Split-at i arrived ctx queue b (sym e))

  pop_from-Next :
      (requests : List (List (RequestContext I B))) (arrived : List (RequestContext I B)) (i : ℕ)
      → i ≤ 6
      → Holds requests arrived
      → AllBelow i arrived
      → Next arrived (pop_from i requests)
  unfolding pop_from
  pop_from-Next requests [] zero h holds b = idle refl holds
  pop_from-Next requests (x ∷ xs) zero h holds b = absurd (omega (arith, b.0))
  pop_from-Next requests arrived (suc i) h holds b =
      pop_front-Next requests arrived i (get_or requests i []) (pop_from i requests) (omega arith)
        holds b (holds.queues i)
        (λ below. pop_from-Next requests arrived i (omega arith) holds below)

  -- Pop() of a queue that holds arrived requests, whose priorities are the queue's, gives nothing
  -- exactly when there are none. Else it gives the first arrived of those with the highest priority,
  -- and leaves the others in their order.
  pub pop-Next :
      (requests : List (List (RequestContext I B))) (arrived : List (RequestContext I B))
      → Holds requests arrived
      → AllBelow 6 arrived
      → Next arrived (pop requests)
  unfolding pop
  pop-Next requests arrived holds b = pop_from-Next requests arrived 6 (omega arith) holds b
