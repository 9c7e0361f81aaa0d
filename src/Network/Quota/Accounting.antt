-- ===== src/Network/Quota/Accounting.antt =====
-- The counters of the groups: the quota bounds them, and they count the outstanding requests.
use here_olp_edge_sdk_cpp.Prelude.{
  ℕ, zero, suc, ◌^◌, ◌<◌, ◌≤◌, ◌≡◌, refl, ap, Bool, true, false, le→leb, some, List, [], ◌∷◌,
  get_elem?, length, arith,
}
use here_olp_edge_sdk_cpp.Network.PriorityQueue.{RequestContext}
use here_olp_edge_sdk_cpp.Network.Quota.{
  QuotaQueue, Decorator, ErrorCode, Answer, decorate, add_quota_groups, without,
}
use here_olp_edge_sdk_cpp.Network.Quota.Worker.{visit}
use here_olp_edge_sdk_cpp.Network.Quota.Moves.{Step, Step-Moves}
use here_olp_edge_sdk_cpp.Network.Quota.Moves.Group.{
  Moved, Moves, done, more, queued, taken, refused, failed, answered,
}

module _ {ℓ} {I B : Type ℓ} where
  -- The counter is within the quota, and no request is outstanding that it does not count.
  pub record IsAccounted (q : QuotaQueue I B) : Type ℓ where
    pub machine : q.quota < 2 ^ 64
    pub within : q.counter ≤ q.quota
    pub counted : length q.outstanding ≤ q.counter

  pub AreAccounted : List (QuotaQueue I B) → Type ℓ
  AreAccounted [] = Unit
  AreAccounted (q ∷ qs) = IsAccounted q × AreAccounted qs

  length-without :
      (k : ℕ) (xs : List (RequestContext I B)) (x : RequestContext I B)
      → get_elem? xs k ≡ some x
      → suc (length (without k xs)) ≡ length xs
  length-without k [] x e = cc
  length-without zero (y ∷ xs) x e = refl
  length-without (suc k) (y ∷ xs) x e = ap suc (length-without k xs x e)

  Moved-IsAccounted : {q q' : QuotaQueue I B} → Moved q q' → IsAccounted q → IsAccounted q'
  Moved-IsAccounted (queued queue) a = record {
    machine = a.machine;
    within = a.within;
    counted = a.counted;
  }
  Moved-IsAccounted (taken queue request h) a = record {
    machine = a.machine;
    within = omega (arith, a.machine);
    counted = omega (arith, a.counted, a.machine);
  }
  Moved-IsAccounted (refused queue h) a = record {
    machine = a.machine;
    within = omega (arith, a.machine);
    counted = omega (arith, a.counted, a.machine);
  }
  Moved-IsAccounted (failed queue h) a = record {
    machine = a.machine;
    within = omega (arith, a.machine);
    counted = omega (arith, a.counted, a.machine);
  }
  Moved-IsAccounted {q = q} (answered k request e) a = record {
    machine = a.machine;
    within =
        omega (arith, a.within, a.counted, a.machine, length-without k q.outstanding request e);
    counted =
        omega (arith, a.within, a.counted, a.machine, length-without k q.outstanding request e);
  }

  Moves-AreAccounted :
      {qs qs' : List (QuotaQueue I B)} → Moves qs qs' → AreAccounted qs → AreAccounted qs'
  unfolding AreAccounted
  Moves-AreAccounted done a = a
  Moves-AreAccounted (more m ms) a = (Moved-IsAccounted m a.0, Moves-AreAccounted ms a.1)

  -- A group whose counter has reached the quota with no request outstanding.
  pub record IsStuck (q : QuotaQueue I B) : Type ℓ where
    pub full : q.quota ≤ q.counter
    pub idle : q.outstanding ≡ []

  Moved-IsStuck : {q q' : QuotaQueue I B} → Moved q q' → IsStuck q → IsStuck q'
  Moved-IsStuck (queued queue) s = record { full = s.full; idle = s.idle }
  Moved-IsStuck (taken queue request h) s = absurd (omega (arith, s.full))
  Moved-IsStuck (refused queue h) s = absurd (omega (arith, s.full))
  Moved-IsStuck (failed queue h) s = absurd (omega (arith, s.full))
  Moved-IsStuck (answered k request e) s =
      cc (e, ap (λ (l : List (RequestContext I B)). get_elem? l k) s.idle)

  -- Group `i` of the groups is stuck.
  pub data IsStuckAt : ℕ → List (QuotaQueue I B) → Type ℓ where
    here : {q : QuotaQueue I B} {qs : List (QuotaQueue I B)} → IsStuck q → IsStuckAt zero (q ∷ qs)
    there :
        {i : ℕ} {q : QuotaQueue I B} {qs : List (QuotaQueue I B)}
        → IsStuckAt i qs
        → IsStuckAt (suc i) (q ∷ qs)

  Moves-IsStuckAt :
      {qs qs' : List (QuotaQueue I B)} {i : ℕ} → Moves qs qs' → IsStuckAt i qs → IsStuckAt i qs'
  Moves-IsStuckAt done s = elim s [ ]
  Moves-IsStuckAt (more m ms) (here s) = here (Moved-IsStuck m s)
  Moves-IsStuckAt (more m ms) (there s) = there (Moves-IsStuckAt ms s)

  -- Every quota is a `std::size_t`.
  abbrev pub AreSizes : List (ℕ × (RequestContext I B → Bool)) → Type 0
  AreSizes [] = Unit
  AreSizes (config ∷ configs) = (config.0 < 2 ^ 64) × AreSizes configs

  groups-AreAccounted :
      (configs : List (ℕ × (RequestContext I B → Bool)))
      → AreSizes configs
      → AreAccounted (add_quota_groups configs)
  unfolding AreAccounted
  groups-AreAccounted [] h = tt
  groups-AreAccounted (config ∷ configs) h = (
    record { machine = h.0; within = omega arith; counted = omega arith },
    groups-AreAccounted configs h.1,
  )

module _ {ℓ} {I B R : Type ℓ} (has_callback : RequestContext I B → Bool) where
  -- The states that any sequence of operations leads to.
  pub data Reached (start : Decorator I B R) : Decorator I B R → Type ℓ where
    begun : Reached start start
    further : {d d' : Decorator I B R} → Reached start d → Step has_callback d d' → Reached start d'

  Reached-AreAccounted :
      {start d : Decorator I B R}
      → Reached start d
      → AreAccounted start.queues
      → AreAccounted d.queues
  Reached-AreAccounted begun a = a
  Reached-AreAccounted (further reached step) a =
      Moves-AreAccounted (Step-Moves has_callback step) (Reached-AreAccounted reached a)

  -- Whatever the worker thread, the users and the protocol do with a new decorator whose quotas are
  -- `std::size_t`s, the counter of no group exceeds its quota, and it is not less than the number of
  -- the group's outstanding requests.
  pub decorate-AreAccounted :
      (default_quota_group_size : ℕ) (queue_configs : List (ℕ × (RequestContext I B → Bool)))
      (d : Decorator I B R)
      → default_quota_group_size < 2 ^ 64
      → AreSizes queue_configs
      → Reached (decorate default_quota_group_size queue_configs) d
      → AreAccounted d.queues
  unfolding decorate AreAccounted
  decorate-AreAccounted default_quota_group_size queue_configs d h hs reached =
      Reached-AreAccounted reached (
        record { machine = h; within = omega arith; counted = omega arith },
        groups-AreAccounted queue_configs hs,
      )

  -- A group whose counter has reached the quota while no request of it is outstanding stays so,
  -- whatever the worker thread, the users and the protocol do.
  pub stuck-forever :
      (start d : Decorator I B R) (i : ℕ)
      → IsStuckAt i start.queues
      → Reached start d
      → IsStuckAt i d.queues
  stuck-forever start d i s begun = s
  stuck-forever start d i s (further {d = e} reached step) =
      Moves-IsStuckAt (Step-Moves has_callback step) (stuck-forever start e i s reached)

  -- A visit takes no request of such a group.
  stuck-visit :
      (q : QuotaQueue I B) (ready : Bool) (code : ErrorCode) (signal : Bool)
      (called : List (RequestContext I B × Answer R))
      → IsStuck q
      → (visit has_callback ready code q signal called).0 ≡ q
  unfolding visit
  stuck-visit q false code signal called s = refl
  stuck-visit q true code signal called s = rw (le→leb q.quota q.counter s.full)
