-- ===== src/Client/Retry/Once.antt =====
-- A call asks the network a bounded number of times and is answered at most once, in every order of
-- responses, ends of a sleep and cancellations.
use here_olp_edge_sdk_cpp.Prelude.{
  ℕ, ◌≤◌, Bool, true, false, inl, inr, Bool-cases, Option, none, some, List, [], ◌∷◌, length, ◌++◌,
  if◌then◌else◌, ◌≡◌, refl, sym, arith,
}
use here_olp_edge_sdk_cpp.Client.Cancellation.{
  CancellationContext, new_context, cancel_operation, cancel_token, is_cancelled, cancel_once,
  cancel_in,
}
use here_olp_edge_sdk_cpp.Client.Retry.{
  RetrySettings, Answer, Phase, Call, Event, holder, cancel_request, call_token, cancel, disown,
  call_api, respond, wake, step, run,
}
use mathlib.Core.Path.{subst}
use here_olp_edge_sdk_cpp.Client.Retry.Sound.{
  limit, PhaseFits, IsSound, IsThere, limit_pos, send-IsSound, respond_in-IsSound, wake_in-IsSound,
}

abbrev pub has_ended : {P : Type 0} → Phase P → Bool
has_ended (Phase.waiting t p) = false
has_ended (Phase.sleeping t p) = false
has_ended Phase.ended = true

if_yes : {A : Type 0} → {b : Bool} → (x y : A) → b ≡ true → (if b then x else y) ≡ x
if_yes x y h = rw h

if_no : {A : Type 0} → {b : Bool} → (x y : A) → b ≡ false → (if b then x else y) ≡ y
if_no x y h = rw h

module _ {R P : Type 0} (settings : RetrySettings R P) where
  pub cancel_owned :
      (answer : Option R) (c : Call R P)
      → c.has_owner ≡ true
      → cancel settings answer c ≡ cancel_in holder (call_token settings answer) c.context c
  unfolding cancel cancel_operation
  cancel_owned answer c owned = if_yes _ _ owned

  pub cancel_lost :
      (answer : Option R) (c : Call R P) → c.has_owner ≡ false → cancel settings answer c ≡ c
  unfolding cancel
  cancel_lost answer c lost = if_no _ _ lost

  -- A cancellation does nothing, or what the call of the token does and no more to these fields.
  module _ (Holds : Phase P → ℕ → List (Answer R) → Type 0) (answer : Option R) (c : Call R P) where
    abbrev HoldsIn : Call R P → Type 0
    HoldsIn d = Holds d.phase d.sent d.answers

    cancel_once-Holds :
        (stopped : Bool) (token : Option ℕ)
        → HoldsIn c
        → ((token : ℕ) → HoldsIn (call_token settings answer token c))
        → HoldsIn (cancel_once holder (call_token settings answer) stopped token c)
    unfolding cancel_token
    cancel_once-Holds true token same called = same
    cancel_once-Holds false none same called = same
    cancel_once-Holds false (some n) same called = called n

    cancel_in-Holds :
        (context : CancellationContext ℕ)
        → HoldsIn c
        → ((token : ℕ) → HoldsIn (call_token settings answer token c))
        → HoldsIn (cancel_in holder (call_token settings answer) context c)
    cancel_in-Holds none same called = same
    cancel_in-Holds (some impl) same called =
        cancel_once-Holds impl.is_cancelled impl.sub_operation_cancel_token same called

    pub cancel-Holds :
        HoldsIn c
        → ((token : ℕ) → HoldsIn (call_token settings answer token c))
        → HoldsIn (cancel settings answer c)
    cancel-Holds same called = elim (Bool-cases c.has_owner) [
      | inl owned ↦
          subst (λ (d : Call R P). HoldsIn d) (sym (cancel_owned answer c owned))
            (cancel_in-Holds c.context same called)
      | inr lost ↦ subst (λ (d : Call R P). HoldsIn d) (sym (cancel_lost answer c lost)) same
    ]

  cancel_in-IsThere :
      (answer : Option R) (context : CancellationContext ℕ) (c : Call R P)
      → IsThere c.context
      → IsThere (cancel_in holder (call_token settings answer) context c).context
  cancel_in-IsThere answer none c there = there
  cancel_in-IsThere answer (some impl) c there = elim (Bool-cases impl.is_cancelled) [
    | inl e ↦ rw e there
    | inr e ↦ rw e tt
  ]

  cancel-IsThere :
      (answer : Option R) (c : Call R P)
      → IsThere c.context
      → IsThere (cancel settings answer c).context
  cancel-IsThere answer c there = elim (Bool-cases c.has_owner) [
    | inl owned ↦
        subst (λ (d : Call R P). IsThere d.context) (sym (cancel_owned answer c owned))
          (cancel_in-IsThere answer c.context c there)
    | inr lost ↦ subst (λ (d : Call R P). IsThere d.context) (sym (cancel_lost answer c lost)) there
  ]

  cancel_request-IsSound :
      (answer : Option R) (ph : Phase P) (c : Call R P)
      → c.phase ≡ ph
      → IsSound (limit settings.max_attempts) c
      → IsSound (limit settings.max_attempts) (cancel_request settings answer ph c)
  unfolding wake respond
  cancel_request-IsSound none ph c e s = s
  cancel_request-IsSound (some r) (Phase.waiting t p) c e s =
      let s1 = respond_in-IsSound settings c.phase r c refl s.fits s.there in
      wake_in-IsSound settings (respond settings r c).phase (respond settings r c) refl s1.fits
        s1.there
  cancel_request-IsSound (some r) (Phase.sleeping t p) c e s = s
  cancel_request-IsSound (some r) Phase.ended c e s = s

  cancel-IsSound :
      (answer : Option R) (c : Call R P)
      → IsSound (limit settings.max_attempts) c
      → IsSound (limit settings.max_attempts) (cancel settings answer c)
  cancel-IsSound answer c s = record {
    fits =
        cancel-Holds
          (λ ph sent answers. PhaseFits (limit settings.max_attempts) ph sent (length answers))
          answer c s.fits
          (λ token.
            (cancel_request-IsSound answer c.phase
              (record c { cancelled = c.cancelled ++ token ∷ [] }) refl
              (record { fits = s.fits; there = s.there })).fits);
    there = cancel-IsThere answer c s.there;
  }

  pub step-IsSound :
      (e : Event R) (c : Call R P)
      → IsSound (limit settings.max_attempts) c
      → IsSound (limit settings.max_attempts) (step settings e c)
  unfolding step respond wake disown
  step-IsSound (Event.responds r) c s = respond_in-IsSound settings c.phase r c refl s.fits s.there
  step-IsSound Event.wakes c s = wake_in-IsSound settings c.phase c refl s.fits s.there
  step-IsSound (Event.cancels answer) c s = cancel-IsSound answer c s
  step-IsSound Event.disowns c s = record { fits = s.fits; there = s.there }

  pub run-IsSound :
      (es : List (Event R)) (c : Call R P)
      → IsSound (limit settings.max_attempts) c
      → IsSound (limit settings.max_attempts) (run settings es c)
  unfolding run
  run-IsSound [] c s = s
  run-IsSound (e ∷ es) c s = run-IsSound es (step settings e c) (step-IsSound e c s)

  pub call_api-IsSound : IsSound (limit settings.max_attempts) (call_api settings)
  unfolding call_api new_context is_cancelled
  call_api-IsSound =
      send-IsSound (limit settings.max_attempts) 0 settings.initial_backdown_period _ tt refl
        (limit_pos settings.max_attempts) refl (inr refl)

  pub fits_bounds :
      (most : ℕ) (ph : Phase P) (sent answers : ℕ)
      → PhaseFits most ph sent answers
      → (1 ≤ sent) × (sent ≤ most) × (answers ≡ (if has_ended ph then 1 else 0))
  fits_bounds most (Phase.waiting t p) sent answers (e, low, high, none_yet) =
      (omega arith, omega arith, none_yet)
  fits_bounds most (Phase.sleeping t p) sent answers (e, low, high, none_yet) =
      (omega arith, omega arith, none_yet)
  fits_bounds most Phase.ended sent answers (low, high, one) = (low, high, one)

  -- Whatever happens during a call, in any order: it makes one request at least, and no more than
  -- `max_attempts` of them (one, if that number is below one); and its callback was called exactly
  -- once if the call has ended, and not at all before that.
  pub run_bounds :
      (es : List (Event R))
      → (1 ≤ (run settings es (call_api settings)).sent)
        × ((run settings es (call_api settings)).sent ≤ limit settings.max_attempts)
        × (length (run settings es (call_api settings)).answers
            ≡ (if has_ended (run settings es (call_api settings)).phase then 1 else 0))
  run_bounds es =
      let s = run-IsSound es (call_api settings) call_api-IsSound in
      fits_bounds (limit settings.max_attempts) (run settings es (call_api settings)).phase
        (run settings es (call_api settings)).sent
        (length (run settings es (call_api settings)).answers) s.fits
