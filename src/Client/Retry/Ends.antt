-- ===== src/Client/Retry/Ends.antt =====
-- A call comes to its end under any interleaving with cancellations.
use here_olp_edge_sdk_cpp.Prelude.{
  ℕ, ◌+◌, ◌-◌, ◌*◌, ◌≤◌, Bool, true, false, List, [], ◌∷◌, length, ◌≡◌, refl, ap, ◌∙◌, arith,
}
use here_olp_edge_sdk_cpp.Client.Cancellation.{new_context, execute_or_cancelled}
use here_olp_edge_sdk_cpp.Client.Retry.{
  RetrySettings, Phase, Call, Event, send, cancel, disown, call_api, respond_in, respond, wake,
  step, run,
}
use here_olp_edge_sdk_cpp.Client.Retry.Sound.{limit, limit_pos, PhaseFits, IsSound}
use here_olp_edge_sdk_cpp.Client.Retry.Once.{
  has_ended, fits_bounds, step-IsSound, run-IsSound, call_api-IsSound,
}
use here_olp_edge_sdk_cpp.Client.Retry.Measure.{
  measure, step_of_waiting, step_of_sleeping, most, step-measure, run-measure, cancel_asleep,
}

abbrev pub has_wakes : {R : Type 0} → List (Event R) → Bool
has_wakes [] = false
has_wakes (Event.wakes ∷ es) = true
has_wakes (Event.responds r ∷ es) = has_wakes es
has_wakes (Event.cancels a ∷ es) = has_wakes es
has_wakes (Event.disowns ∷ es) = has_wakes es

-- There is a response, and somewhere behind it the end of a sleep.
abbrev pub has_round : {R : Type 0} → List (Event R) → Bool
has_round [] = false
has_round (Event.responds r ∷ es) = has_wakes es
has_round (Event.wakes ∷ es) = has_round es
has_round (Event.cancels a ∷ es) = has_round es
has_round (Event.disowns ∷ es) = has_round es

module _ {R P : Type 0} (settings : RetrySettings R P) where
  respond_asleep :
      (ph : Phase P) (r : R) (c : Call R P)
      → c.phase ≡ ph
      → step_of_sleeping ph ≡ 1
      → step_of_sleeping (respond_in settings ph r c).phase ≡ 1
  respond_asleep (Phase.waiting t p) r c e h = absurd (omega arith)
  respond_asleep (Phase.sleeping t p) r c e h = rw e
  respond_asleep Phase.ended r c e h = absurd (omega arith)

  run_wakes :
      (es : List (Event R)) (c : Call R P)
      → IsSound (most settings) c
      → step_of_sleeping c.phase ≡ 1
      → has_wakes es ≡ true
      → measure (most settings) (run settings es c).phase + 1 ≤ measure (most settings) c.phase
  unfolding run step respond disown
  run_wakes [] c s asleep h = cc
  run_wakes (Event.wakes ∷ es) c s asleep h = omega (
    arith,
    asleep,
    step-measure settings Event.wakes c s,
    run-measure settings es (wake settings c) (step-IsSound settings Event.wakes c s),
  )
  run_wakes (Event.responds r ∷ es) c s asleep h = omega (
    arith,
    step-measure settings (Event.responds r) c s,
    run_wakes es (respond settings r c) (step-IsSound settings (Event.responds r) c s)
        (respond_asleep c.phase r c refl asleep) h,
  )
  run_wakes (Event.cancels a ∷ es) c s asleep h = omega (
    arith,
    step-measure settings (Event.cancels a) c s,
    run_wakes es (cancel settings a c) (step-IsSound settings (Event.cancels a) c s)
        (cancel_asleep settings a c asleep) h,
  )
  run_wakes (Event.disowns ∷ es) c s asleep h =
      omega (arith, run_wakes es (disown c) (step-IsSound settings Event.disowns c s) asleep h)

  -- A response, then the end of a sleep.
  responds_then_wakes :
      (ph : Phase P) (r : R) (es : List (Event R)) (c : Call R P)
      → c.phase ≡ ph
      → IsSound (most settings) c
      → has_wakes es ≡ true
      → measure (most settings) (run settings es (step settings (Event.responds r) c)).phase
        ≤ measure (most settings) ph - 1
  unfolding step respond
  responds_then_wakes (Phase.waiting t p) r es c e s h = omega (
    arith,
    ap (measure (most settings)) e,
    ap step_of_waiting e,
    step-measure settings (Event.responds r) c s,
    run-measure settings es (respond settings r c) (step-IsSound settings (Event.responds r) c s),
  )
  responds_then_wakes (Phase.sleeping t p) r es c e s h = omega (
    arith,
    ap (measure (most settings)) e,
    step-measure settings (Event.responds r) c s,
    run_wakes es (respond settings r c) (step-IsSound settings (Event.responds r) c s)
        (respond_asleep c.phase r c refl (ap step_of_sleeping e)) h,
  )
  responds_then_wakes Phase.ended r es c e s h = omega (
    arith,
    ap (measure (most settings)) e,
    step-measure settings (Event.responds r) c s,
    run-measure settings es (respond settings r c) (step-IsSound settings (Event.responds r) c s),
  )

  run_round :
      (es : List (Event R)) (c : Call R P)
      → IsSound (most settings) c
      → has_round es ≡ true
      → measure (most settings) (run settings es c).phase ≤ measure (most settings) c.phase - 1
  unfolding run
  run_round [] c s h = cc
  run_round (Event.responds r ∷ es) c s h = responds_then_wakes c.phase r es c refl s h
  run_round (Event.wakes ∷ es) c s h = omega (
    arith,
    step-measure settings Event.wakes c s,
    run_round es (step settings Event.wakes c) (step-IsSound settings Event.wakes c s) h,
  )
  run_round (Event.cancels a ∷ es) c s h = omega (
    arith,
    step-measure settings (Event.cancels a) c s,
    run_round es (step settings (Event.cancels a) c) (step-IsSound settings (Event.cancels a) c s)
        h,
  )
  run_round (Event.disowns ∷ es) c s h = omega (
    arith,
    step-measure settings Event.disowns c s,
    run_round es (step settings Event.disowns c) (step-IsSound settings Event.disowns c s) h,
  )

  -- The sequences one after the other.
  abbrev pub run_all : List (List (Event R)) → Call R P → Call R P
  run_all [] c = c
  run_all (es ∷ rest) c = run_all rest (run settings es c)

  abbrev pub AllRounds : List (List (Event R)) → Type 0
  AllRounds [] = Unit
  AllRounds (es ∷ rest) = (has_round es ≡ true) × AllRounds rest

  run_all-measure :
      (ess : List (List (Event R))) (c : Call R P)
      → IsSound (most settings) c
      → AllRounds ess
      → (measure (most settings) (run_all ess c).phase
          ≤ measure (most settings) c.phase - length ess)
        × IsSound (most settings) (run_all ess c)
  run_all-measure [] c s h = (omega arith, s)
  run_all-measure (es ∷ rest) c s (h, hs) =
      let (below, sound) =
        run_all-measure rest (run settings es c) (run-IsSound settings es c s) hs in
      (omega (arith, below, run_round es c s h), sound)

  measure_ended :
      (ph : Phase P) (sent answers : ℕ)
      → PhaseFits (most settings) ph sent answers
      → measure (most settings) ph ≡ 0
      → has_ended ph ≡ true
  measure_ended (Phase.waiting t p) sent answers fits z = absurd (omega arith)
  measure_ended (Phase.sleeping t p) sent answers (e, low, left, none_yet) z = absurd (omega arith)
  measure_ended Phase.ended sent answers fits z = refl

  call_api-measure : measure (most settings) (call_api settings).phase ≤ 2 * most settings
  unfolding call_api send execute_or_cancelled new_context
  call_api-measure = omega (arith, limit_pos settings.max_attempts)

  -- A call ends, and its callback is called once, when its events hold twice as many stretches as it
  -- may make requests, each with a response and after that the end of a sleep, whatever else happens
  -- between them: other responses, cancellations, or the loss of the token.
  pub run_all_ends :
      (ess : List (List (Event R)))
      → AllRounds ess
      → 2 * limit settings.max_attempts ≤ length ess
      → (has_ended (run_all ess (call_api settings)).phase ≡ true)
        × (length (run_all ess (call_api settings)).answers ≡ 1)
  run_all_ends ess rounds_all enough =
      let (below, sound) =
        run_all-measure ess (call_api settings) (call_api-IsSound settings) rounds_all in
      let done : has_ended (run_all ess (call_api settings)).phase ≡ true =
        measure_ended (run_all ess (call_api settings)).phase (run_all ess (call_api settings)).sent
          (length (run_all ess (call_api settings)).answers) sound.fits
          (omega (arith, below, call_api-measure)) in
      let (low, high, count) =
        fits_bounds settings (most settings) (run_all ess (call_api settings)).phase
          (run_all ess (call_api settings)).sent (length (run_all ess (call_api settings)).answers)
          sound.fits in
      (done, count ∙ rw done)
