-- ===== src/Network/PriorityQueue/Arrival.antt =====
-- The queue as the list of its requests in the order of their arrival.
use here_olp_edge_sdk_cpp.Prelude.{
  ℕ, zero, suc, ◌<◌, ◌≡◌, refl, sym, ap, ◌∙◌, ◌≢◌, inl, inr, ◌==◌, ==-eq, ==-ne, eq_cases,
  if◌then◌else◌, Bool, Bool-cases, List, [], ◌∷◌, ◌++◌, length, get_or, set, arith, length-set,
}
use here_olp_edge_sdk_cpp.Prelude.Int.{ℤ, pos, negsuc}
use mathlib.Core.List.{append-nil}
use here_olp_edge_sdk_cpp.Network.PriorityQueue.{
  RequestContext, no_requests, set_priority, push, filter, rejecting, remove_if,
}

-- A priority is one of the queue's.
set_priority-lt : (priority : ℤ) → set_priority priority < 6
unfolding set_priority
set_priority-lt (negsuc n) = omega arith
set_priority-lt (pos n) = ground arith

get_or-set_self {ℓ} :
    {A : Type ℓ} (xs : List A) (i : ℕ) (v d : A) → i < length xs → get_or (set xs i v) i d ≡ v
get_or-set_self [] i v d h = absurd (omega (arith, h))
get_or-set_self (x ∷ xs) zero v d h = refl
get_or-set_self (x ∷ xs) (suc i) v d h = get_or-set_self xs i v d (omega arith)

get_or-set_ne {ℓ} :
    {A : Type ℓ} (xs : List A) (i j : ℕ) (v d : A) → i ≢ j → get_or (set xs i v) j d ≡ get_or xs j d
get_or-set_ne [] i j v d h = refl
get_or-set_ne (x ∷ xs) zero zero v d h = absurd (h refl)
get_or-set_ne (x ∷ xs) zero (suc j) v d h = refl
get_or-set_ne (x ∷ xs) (suc i) zero v d h = refl
get_or-set_ne (x ∷ xs) (suc i) (suc j) v d h = get_or-set_ne xs i j v d (λ e. h (ap suc e))

module _ {ℓ} {I B : Type ℓ} where
  abbrev pub has_priority : ℕ → RequestContext I B → Bool
  has_priority p ctx = ctx.priority == p

  -- Every queue holds the requests of its priority in the order of their arrival.
  pub record Holds (requests : List (List (RequestContext I B)))
      (arrived : List (RequestContext I B)) : Type ℓ where
    pub slots : length requests ≡ 6
    pub queues : (p : ℕ) → get_or requests p [] ≡ filter (has_priority p) arrived

  abbrev pub AllBelow : ℕ → List (RequestContext I B) → Type 0
  AllBelow n [] = Unit
  AllBelow n (ctx ∷ arrived) = (ctx.priority < n) × AllBelow n arrived

  pub filter_hit :
      (i : ℕ) (x : RequestContext I B) (xs : List (RequestContext I B))
      → x.priority ≡ i
      → filter (has_priority i) (x ∷ xs) ≡ x ∷ filter (has_priority i) xs
  filter_hit i x xs h =
      ap (λ (t : Bool). if t then x ∷ filter (has_priority i) xs else filter (has_priority i) xs)
        (==-eq x.priority i h)

  pub filter_miss :
      (i : ℕ) (x : RequestContext I B) (xs : List (RequestContext I B))
      → x.priority ≢ i
      → filter (has_priority i) (x ∷ xs) ≡ filter (has_priority i) xs
  filter_miss i x xs h =
      ap (λ (t : Bool). if t then x ∷ filter (has_priority i) xs else filter (has_priority i) xs)
        (==-ne x.priority i h)

  filter-append :
      (f : RequestContext I B → Bool) (xs ys : List (RequestContext I B))
      → filter f (xs ++ ys) ≡ filter f xs ++ filter f ys
  filter-append f [] ys = refl
  filter-append f (x ∷ xs) ys = ground (arith, filter-append f xs ys)

  -- The slot of one priority is another list, those of the others are the same.
  pub Holds-set :
      (requests : List (List (RequestContext I B))) (arrived others : List (RequestContext I B))
      (i : ℕ) (queue : List (RequestContext I B))
      → i < 6
      → Holds requests arrived
      → queue ≡ filter (has_priority i) others
      → ((p : ℕ) → i ≢ p → filter (has_priority p) arrived ≡ filter (has_priority p) others)
      → Holds (set requests i queue) others
  Holds-set requests arrived others i queue h holds at same = record {
    slots = length-set requests i queue ∙ holds.slots;
    queues = λ p. elim (eq_cases i p) [
      | inl q ↦
          ap (λ k. get_or (set requests i queue) k []) (sym q)
          ∙ get_or-set_self requests i queue [] (omega (arith, holds.slots))
          ∙ at
          ∙ ap (λ k. filter (has_priority k) others) q
      | inr q ↦ get_or-set_ne requests i p queue [] q ∙ holds.queues p ∙ same p q
    ];
  }

  pub Holds-no_requests : Holds no_requests []
  Holds-no_requests = record { slots = refl; queues = λ p. none_at p }
    where
      none_at : (p : ℕ) → get_or (no_requests {I = I} {B = B}) p [] ≡ []
      none_at zero = refl
      none_at (suc zero) = refl
      none_at (suc (suc zero)) = refl
      none_at (suc (suc (suc zero))) = refl
      none_at (suc (suc (suc (suc zero)))) = refl
      none_at (suc (suc (suc (suc (suc zero))))) = refl
      none_at (suc (suc (suc (suc (suc (suc n)))))) = refl

  -- Push() of a request whose priority is one of the queue's is an arrival.
  pub push-arrives :
      (requests : List (List (RequestContext I B))) (arrived : List (RequestContext I B))
      (context : RequestContext I B)
      → context.priority < 6
      → Holds requests arrived
      → Holds (push requests context) (arrived ++ context ∷ [])
  unfolding push
  push-arrives requests arrived context h holds =
      Holds-set requests arrived (arrived ++ context ∷ []) context.priority _ h holds at others
    where
      at :
          get_or requests context.priority [] ++ context ∷ []
          ≡ filter (has_priority context.priority) (arrived ++ context ∷ [])
      at = ground (
        arith,
        holds.queues context.priority,
        filter-append (has_priority context.priority) arrived (context ∷ []),
      )

      others :
          (p : ℕ)
          → context.priority ≢ p
          → filter (has_priority p) arrived ≡ filter (has_priority p) (arrived ++ context ∷ [])
      others p ne = ground (
        arith,
        filter-append (has_priority p) arrived (context ∷ []),
        append-nil (filter (has_priority p) arrived),
      )

  filter-filter :
      (f g : RequestContext I B → Bool) (xs : List (RequestContext I B))
      → filter f (filter g xs) ≡ filter g (filter f xs)
  filter-filter f g [] = refl
  filter-filter f g (x ∷ xs) = elim (Bool-cases (f x)) [
    | inl a ↦ elim (Bool-cases (g x)) [
      | inl b ↦ rw (b, a, b) (ap (◌∷◌ x) (filter-filter f g xs))
      | inr b ↦ rw (b, a, b) (filter-filter f g xs)
    ]
    | inr a ↦ elim (Bool-cases (g x)) [
      | inl b ↦ rw (b, a) (filter-filter f g xs)
      | inr b ↦ rw (b, a) (filter-filter f g xs)
    ]
  ]

  remove_if-length :
      (f : RequestContext I B → Bool) (requests : List (List (RequestContext I B)))
      → length (remove_if f requests).0 ≡ length requests
  unfolding remove_if
  remove_if-length f [] = refl
  remove_if-length f (queue ∷ queues) = ap suc (remove_if-length f queues)

  remove_if-at :
      (f : RequestContext I B → Bool) (requests : List (List (RequestContext I B))) (p : ℕ)
      → get_or (remove_if f requests).0 p [] ≡ filter (rejecting f) (get_or requests p [])
  unfolding remove_if
  remove_if-at f [] p = refl
  remove_if-at f (queue ∷ queues) zero = refl
  remove_if-at f (queue ∷ queues) (suc p) = remove_if-at f queues p

  -- RemoveIf() leaves the arrived requests that fail the test, in their order.
  remove_if-leaves :
      (requests : List (List (RequestContext I B))) (arrived : List (RequestContext I B))
      (f : RequestContext I B → Bool)
      → Holds requests arrived
      → Holds (remove_if f requests).0 (filter (rejecting f) arrived)
  remove_if-leaves requests arrived f holds = record {
    slots = remove_if-length f requests ∙ holds.slots;
    queues = λ p.
        remove_if-at f requests p
        ∙ ap (filter (rejecting f)) (holds.queues p)
        ∙ filter-filter (rejecting f) (has_priority p) arrived;
  }
