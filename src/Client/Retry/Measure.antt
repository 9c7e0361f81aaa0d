-- ===== src/Client/Retry/Measure.antt =====
-- What is left of a call: a measure that no event raises.
use here_olp_edge_sdk_cpp.Prelude.{
  ℕ, ◌+◌, ◌-◌, ◌*◌, ◌≤◌, Bool, true, false, not, ◌||◌, inl, inr, Bool-cases, Option, none, some,
  List, [], ◌∷◌, length, ◌++◌, ap, ◌∙◌, if◌then◌else◌, ◌≡◌, refl, sym, arith,
}
use here_olp_edge_sdk_cpp.Client.Cancellation.{
  store_token, execute_or, execute_in, CancellationContext, execute_or_cancelled,
}
use here_olp_edge_sdk_cpp.Client.Retry.{
  RetrySettings, Answer, Phase, Call, Event, reached, callback, handle, holder, send,
  cancel_request, cancel, disown, respond_in, respond, wake_in, wake, step, run,
}
use here_olp_edge_sdk_cpp.Client.Retry.Sound.{
  limit, PhaseFits, IsSound, IsThere, respond_in-IsSound,
}
use here_olp_edge_sdk_cpp.Client.Retry.Once.{cancel-Holds, step-IsSound}
use mathlib.Core.Path.{subst}

-- What is left of a call: two steps for each try that is left.
abbrev pub measure : {P : Type 0} → ℕ → Phase P → ℕ
measure most (Phase.waiting t p) = 2 * (most - t) + 1
measure most (Phase.sleeping t p) = 2 * (most - t)
measure most Phase.ended = 0

abbrev pub step_of_waiting : {P : Type 0} → Phase P → ℕ
step_of_waiting (Phase.waiting t p) = 1
step_of_waiting (Phase.sleeping t p) = 0
step_of_waiting Phase.ended = 0

abbrev pub step_of_sleeping : {P : Type 0} → Phase P → ℕ
step_of_sleeping (Phase.waiting t p) = 0
step_of_sleeping (Phase.sleeping t p) = 1
step_of_sleeping Phase.ended = 0

module _ {R P : Type 0} (settings : RetrySettings R P) where
  abbrev pub most : ℕ
  most = limit settings.max_attempts

  respond_in-measure :
      (ph : Phase P) (r : R) (c : Call R P)
      → c.phase ≡ ph
      → measure most (respond_in settings ph r c).phase + step_of_waiting ph ≤ measure most ph
  unfolding callback
  respond_in-measure (Phase.waiting t p) r c e =
      elim (Bool-cases (reached t settings.max_attempts || not (settings.retry_condition r))) [
        | inl last ↦ rw last (omega arith)
        | inr more ↦ rw more (omega arith)
      ]
  respond_in-measure (Phase.sleeping t p) r c e = rw e (omega arith)
  respond_in-measure Phase.ended r c e = rw e (omega arith)

  store_token-phase :
      (context : CancellationContext ℕ) (token : Option ℕ) (c : Call R P)
      → (store_token holder context token c).phase ≡ c.phase
  store_token-phase none token c = refl
  store_token-phase (some impl) token c = refl

  execute_or-measure :
      (stopped : Bool) (t : ℕ) (p : P) (c : Call R P)
      → measure most
          (execute_or holder stopped
            (some (handle t p))
            (some (callback Answer.operation_cancelled))
            c).phase
        ≤ 2 * (most - (t + 1)) + 1
  unfolding callback
  execute_or-measure true t p c = omega arith
  execute_or-measure false t p c =
      let e =
        store_token-phase c.context (some c.sent)
          (record c { phase = Phase.waiting (t + 1) p; sent = c.sent + 1 }) in
      rw e (omega arith)

  execute_in-measure :
      (context : CancellationContext ℕ) (t : ℕ) (p : P) (c : Call R P)
      → IsThere context
      → measure most
          (execute_in holder context
            (some (handle t p))
            (some (callback Answer.operation_cancelled))
            c).phase
        ≤ 2 * (most - (t + 1)) + 1
  execute_in-measure none t p c there = absurd there
  execute_in-measure (some impl) t p c there = execute_or-measure impl.is_cancelled t p c

  -- What is claimed of the end of a sleep.
  abbrev Awake : ℕ → P → Call R P → Bool → Type 0
  Awake t p c owned =
      measure most
          (if owned
            then send t (settings.backdown_policy p) c
            else callback Answer.unknown_error c).phase
        + 1
      ≤ 2 * (most - t)

  wake_in-measure :
      (ph : Phase P) (c : Call R P)
      → c.phase ≡ ph
      → PhaseFits most ph c.sent (length c.answers)
      → IsThere c.context
      → measure most (wake_in settings ph c).phase + step_of_sleeping ph ≤ measure most ph
  unfolding callback send execute_or_cancelled
  wake_in-measure (Phase.waiting t p) c e fits there = rw e (omega arith)
  wake_in-measure Phase.ended c e fits there = rw e (omega arith)
  wake_in-measure (Phase.sleeping t p) c e (sent, low, left, none_yet) there =
      elim (Bool-cases c.has_owner) [
        | inl owned ↦
            subst (Awake t p c) (sym owned)
              (omega (arith, execute_in-measure c.context t (settings.backdown_policy p) c there))
        | inr lost ↦ subst (Awake t p c) (sym lost) (omega arith)
      ]

  cancel_request-measure :
      (answer : Option R) (ph : Phase P) (c : Call R P)
      → c.phase ≡ ph
      → IsSound most c
      → measure most (cancel_request settings answer ph c).phase ≤ measure most ph
  unfolding wake respond
  cancel_request-measure none ph c e s = rw e (omega arith)
  cancel_request-measure (some r) (Phase.waiting t p) c e s =
      let s1 = respond_in-IsSound settings c.phase r c refl s.fits s.there in
      omega (
        arith,
        ap (measure most) e,
        respond_in-measure c.phase r c refl,
        wake_in-measure (respond settings r c).phase (respond settings r c) refl s1.fits s1.there,
      )
  cancel_request-measure (some r) (Phase.sleeping t p) c e s = rw e (omega arith)
  cancel_request-measure (some r) Phase.ended c e s = rw e (omega arith)

  cancel-measure :
      (answer : Option R) (c : Call R P)
      → IsSound most c
      → measure most (cancel settings answer c).phase ≤ measure most c.phase
  cancel-measure answer c s =
      cancel-Holds settings (λ ph sent answers. measure most ph ≤ measure most c.phase) answer c
        (omega arith)
        (λ token.
          cancel_request-measure answer c.phase (record c { cancelled = c.cancelled ++ token ∷ [] })
            refl (record { fits = s.fits; there = s.there }))

  cancel_request_asleep :
      (answer : Option R) (ph : Phase P) (c : Call R P)
      → c.phase ≡ ph
      → step_of_sleeping ph ≡ 1
      → step_of_sleeping (cancel_request settings answer ph c).phase ≡ 1
  cancel_request_asleep none ph c e asleep = ap step_of_sleeping e ∙ asleep
  cancel_request_asleep (some r) (Phase.waiting t p) c e asleep = absurd (omega arith)
  cancel_request_asleep (some r) (Phase.sleeping t p) c e asleep = rw e
  cancel_request_asleep (some r) Phase.ended c e asleep = absurd (omega arith)

  pub cancel_asleep :
      (answer : Option R) (c : Call R P)
      → step_of_sleeping c.phase ≡ 1
      → step_of_sleeping (cancel settings answer c).phase ≡ 1
  cancel_asleep answer c asleep =
      cancel-Holds settings (λ ph sent answers. step_of_sleeping ph ≡ 1) answer c asleep
        (λ token.
          cancel_request_asleep answer c.phase (record c { cancelled = c.cancelled ++ token ∷ [] })
            refl asleep)

  -- How far an event brings a call.
  abbrev pub gain : Event R → Phase P → ℕ
  gain (Event.responds r) ph = step_of_waiting ph
  gain Event.wakes ph = step_of_sleeping ph
  gain (Event.cancels answer) ph = 0
  gain Event.disowns ph = 0

  pub step-measure :
      (e : Event R) (c : Call R P)
      → IsSound most c
      → measure most (step settings e c).phase + gain e c.phase ≤ measure most c.phase
  unfolding step respond wake disown
  step-measure (Event.responds r) c s = respond_in-measure c.phase r c refl
  step-measure Event.wakes c s = wake_in-measure c.phase c refl s.fits s.there
  step-measure (Event.cancels answer) c s = omega (arith, cancel-measure answer c s)
  step-measure Event.disowns c s = omega arith

  pub run-measure :
      (es : List (Event R)) (c : Call R P)
      → IsSound most c
      → measure most (run settings es c).phase ≤ measure most c.phase
  unfolding run
  run-measure [] c s = omega arith
  run-measure (e ∷ es) c s =
      omega (
        arith,
        step-measure e c s,
        run-measure es (step settings e c) (step-IsSound settings e c s),
      )
