-- ===== src/Client/Retry/Progress.antt =====
-- A call comes to its end: the response that decides it, and its end under any interleaving.
use here_olp_edge_sdk_cpp.Prelude.{
  ℕ, zero, suc, ◌+◌, ◌-◌, ◌≤◌, true, false, not, ◌||◌, inl, inr, Bool-cases, Option, none, some,
  List, [], ◌∷◌, leb, le→leb, lt→not-leb, if◌then◌else◌, ◌==◌, ==-ne, ◌≡◌, refl, ap, ◌∙◌, arith,
}
use here_olp_edge_sdk_cpp.Prelude.Int.{ℤ, pos, negsuc}
use here_olp_edge_sdk_cpp.Client.Cancellation.{new_context, execute_or_cancelled}
use here_olp_edge_sdk_cpp.Client.Retry.{
  RetrySettings, Answer, Phase, Call, Event, reached, callback, send, call_api, respond_in, respond,
  wake_in, wake, step, run,
}
use here_olp_edge_sdk_cpp.Client.Retry.Sound.{limit, limit_pos}

-- The network answers with these responses, and each sleep comes to its end.
abbrev pub rounds : {R : Type 0} → List R → List (Event R)
rounds [] = []
rounds (r ∷ rs) = Event.responds r ∷ Event.wakes ∷ rounds rs

module _ {R P : Type 0} (settings : RetrySettings R P) where
  -- The first response that is not to be retried, or the one of the last of the tries.
  abbrev pub deciding : ℕ → List R → Option R
  deciding tries [] = none
  deciding zero (r ∷ rs) = none
  deciding (suc tries) (r ∷ rs) =
      let later = deciding tries rs in
      if tries == 0 || not (settings.retry_condition r) then some r else later

  abbrev pub answers_of : Option R → List (Answer R)
  answers_of none = []
  answers_of (some r) = Answer.response r ∷ []

  -- A call whose try `t` is at the network and that nobody has cancelled.
  abbrev at_try : ℕ → P → Option ℕ → ℕ → Call R P
  at_try t period token sent = record {
    phase = Phase.waiting t period;
    context = some (record { sub_operation_cancel_token = token; is_cancelled = false });
    has_owner = true;
    sent = sent;
    cancelled = [];
    answers = [];
  }

  call_api-at_try : call_api settings ≡ at_try 1 settings.initial_backdown_period (some 0) 1
  unfolding call_api send execute_or_cancelled new_context
  call_api-at_try = refl

  -- One response and the end of the sleep behind it, on a try that is not the last.
  step_again :
      (t : ℕ) (r : R) (p : P) (token : Option ℕ) (sent : ℕ)
      → reached t settings.max_attempts ≡ false
      → settings.retry_condition r ≡ true
      → step settings Event.wakes (step settings (Event.responds r) (at_try t p token sent))
        ≡ at_try (t + 1) (settings.backdown_policy p) (some sent) (sent + 1)
  unfolding step respond wake send execute_or_cancelled
  step_again t r p token sent more again = rw (more, again)

  run_ended : (rs : List R) (c : Call R P) → c.phase ≡ Phase.ended → run settings (rounds rs) c ≡ c
  unfolding run step respond wake
  run_ended [] c e = refl
  run_ended (r ∷ rs) c e =
      ap (λ x. run settings (rounds rs) (wake settings x)) (ap (λ ph. respond_in settings ph r c) e)
      ∙ ap (run settings (rounds rs)) (ap (λ ph. wake_in settings ph c) e)
      ∙ run_ended rs c e

  -- The response that ends the call.
  step_last :
      (t : ℕ) (r : R) (p : P) (token : Option ℕ) (sent : ℕ)
      → (reached t settings.max_attempts || not (settings.retry_condition r)) ≡ true
      → step settings Event.wakes (step settings (Event.responds r) (at_try t p token sent))
        ≡ callback (Answer.response r) (at_try t p token sent)
  unfolding step respond wake callback
  step_last t r p token sent last = rw last

  reached-limit : (t : ℕ) (max : ℤ) → 1 ≤ t → reached t max ≡ leb (limit max) t
  reached-limit t (pos zero) h = ground arith
  reached-limit t (pos (suc n)) h = refl
  reached-limit t (negsuc n) h = ground arith

  callback_ended : (answer : Answer R) (c : Call R P) → (callback answer c).phase ≡ Phase.ended
  unfolding callback
  callback_ended answer c = refl

  callback_first :
      (answer : Answer R) (c : Call R P)
      → c.answers ≡ []
      → (callback answer c).answers ≡ answer ∷ []
  unfolding callback
  callback_first answer c e = rw e

  -- The first response ends the call.
  run_last :
      (r : R) (rs : List R) (t : ℕ) (p : P) (token : Option ℕ) (sent : ℕ)
      → (reached t settings.max_attempts || not (settings.retry_condition r)) ≡ true
      → (run settings (rounds (r ∷ rs)) (at_try t p token sent)).answers ≡ answers_of (some r)
  unfolding run
  run_last r rs t p token sent last =
      ap (λ c. (run settings (rounds rs) c).answers) (step_last t r p token sent last)
      ∙ ap (λ c. c.answers)
          (run_ended rs (callback (Answer.response r) (at_try t p token sent))
            (callback_ended (Answer.response r) (at_try t p token sent)))
      ∙ callback_first (Answer.response r) (at_try t p token sent) refl

  run-rounds_from :
      (rs : List R) (tries t : ℕ) (p : P) (token : Option ℕ) (sent : ℕ)
      → t + tries ≡ limit settings.max_attempts
      → 1 ≤ t
      → (run settings (rounds rs) (at_try t p token sent)).answers
        ≡ answers_of (deciding (suc tries) rs)
  unfolding run
  run-rounds_from [] tries t p token sent e h = refl
  run-rounds_from (r ∷ rs) zero t p token sent e h =
      let last : reached t settings.max_attempts ≡ true =
        reached-limit t settings.max_attempts h
        ∙ le→leb (limit settings.max_attempts) t (omega (arith, e)) in
      run_last r rs t p token sent (rw last)
  run-rounds_from (r ∷ rs) (suc tries) t p token sent e h =
      let more : reached t settings.max_attempts ≡ false =
        reached-limit t settings.max_attempts h
        ∙ lt→not-leb t (limit settings.max_attempts) (omega (arith, e)) in
      let left : (suc tries == 0) ≡ false = ==-ne (suc tries) 0 (omega arith) in
      elim (Bool-cases (settings.retry_condition r)) [
        | inl again ↦
            ap (λ c. (run settings (rounds rs) c).answers) (step_again t r p token sent more again)
            ∙ run-rounds_from rs tries (t + 1) (settings.backdown_policy p) (some sent) (sent + 1)
                (omega (arith, e)) (omega arith)
            ∙ rw (left, again)
        | inr good ↦ run_last r rs t p token sent (rw (more, good)) ∙ rw (left, good)
      ]

  -- A call that is not cancelled, and whose network answers with a list of responses, ends with the
  -- first response of the list that the retry condition does not retry, or with the one of the last
  -- attempt that `max_attempts` allows; if the list ends before that, the callback was not called.
  pub run-rounds :
      (rs : List R)
      → (run settings (rounds rs) (call_api settings)).answers
        ≡ answers_of (deciding (limit settings.max_attempts) rs)
  run-rounds rs =
      let low : 1 ≤ limit settings.max_attempts = limit_pos settings.max_attempts in
      let one : suc (limit settings.max_attempts - 1) ≡ limit settings.max_attempts = omega arith in
      ap (λ c. (run settings (rounds rs) c).answers) call_api-at_try
      ∙ run-rounds_from rs (limit settings.max_attempts - 1) 1 settings.initial_backdown_period
          (some 0) 1 (omega arith) (omega arith)
      ∙ ap (λ n. answers_of (deciding n rs)) one
