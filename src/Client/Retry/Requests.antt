-- ===== src/Client/Retry/Requests.antt =====
-- How many requests a step of a call makes.
use here_olp_edge_sdk_cpp.Prelude.{
  ℕ, ◌+◌, ◌≤◌, ◌++◌, arith, Bool, inl, inr, Bool-cases, Option, none, some, [], ◌∷◌, if◌then◌else◌,
  ◌≡◌, refl, sym,
}
use here_olp_edge_sdk_cpp.Client.Cancellation.{
  store_token, execute_in, CancellationContext, execute_or_cancelled,
}
use here_olp_edge_sdk_cpp.Client.Retry.{
  RetrySettings, Answer, Phase, Call, reached, callback, handle, holder, send, cancel_request,
  cancel, respond, wake_in, wake,
}
use here_olp_edge_sdk_cpp.Client.Retry.Once.{cancel-Holds}
use mathlib.Core.Path.{subst}

-- A request more that an answer inside a cancellation may cause.
abbrev pub extra : {R P : Type 0} → RetrySettings R P → Option R → ℕ
extra settings none = 0
extra settings (some r) = if settings.retry_condition r then 1 else 0

-- No fewer requests, and no more than some.
abbrev pub AtMost : {R P : Type 0} → ℕ → Call R P → Call R P → Type 0
AtMost more before after = (before.sent ≤ after.sent) × (after.sent ≤ before.sent + more)

module _ {R P : Type 0} (settings : RetrySettings R P) where
  -- The end of a sleep sends one request at most.
  store_token-sent :
      (context : CancellationContext ℕ) (token : Option ℕ) (c : Call R P)
      → (store_token holder context token c).sent ≡ c.sent
  store_token-sent none token c = refl
  store_token-sent (some impl) token c = refl

  execute_in-sent :
      (context : CancellationContext ℕ) (t : ℕ) (p : P) (c : Call R P)
      → AtMost 1 c (
          execute_in holder context
            (some (handle t p))
            (some (callback Answer.operation_cancelled))
            c)
  unfolding callback
  execute_in-sent none t p c = (omega arith, omega arith)
  execute_in-sent (some impl) t p c = elim (Bool-cases impl.is_cancelled) [
    | inl h ↦ rw h (omega arith, omega arith)
    | inr h ↦
        let e =
          store_token-sent c.context (some c.sent)
            (record c { phase = Phase.waiting (t + 1) p; sent = c.sent + 1 }) in
        rw h (omega (arith, e), omega (arith, e))
  ]

  wake_in-sent : (ph : Phase P) (c : Call R P) → AtMost 1 c (wake_in settings ph c)
  unfolding send execute_or_cancelled callback
  wake_in-sent (Phase.waiting t p) c = (omega arith, omega arith)
  wake_in-sent Phase.ended c = (omega arith, omega arith)
  wake_in-sent (Phase.sleeping t p) c = elim (Bool-cases c.has_owner) [
    | inr lost ↦ subst (λ (b : Bool). AtMost 1 c (awoken b)) (sym lost) (omega arith, omega arith)
    | inl owned ↦
        subst (λ (b : Bool). AtMost 1 c (awoken b)) (sym owned)
          (execute_in-sent c.context t (settings.backdown_policy p) c)
  ]
    where
      awoken : Bool → Call R P
      awoken b =
          if b then send t (settings.backdown_policy p) c else callback Answer.unknown_error c

  answer-sent :
      (r : R) (t : ℕ) (p : P) (c : Call R P)
      → c.phase ≡ Phase.waiting t p
      → AtMost (extra settings (some r)) c (wake settings (respond settings r c))
  unfolding wake respond callback
  answer-sent r t p c e = elim (Bool-cases (reached t settings.max_attempts)) [
    | inl last ↦ rw (e, last) (omega arith, omega arith)
    | inr more ↦ elim (Bool-cases (settings.retry_condition r)) [
      | inr good ↦ rw (e, more, good) (omega arith, omega arith)
      | inl again ↦
          rw (e, more, again)
            (wake_in-sent (Phase.sleeping t p) (record c { phase = Phase.sleeping t p }))
    ]
  ]

  cancel_request-sent :
      (a : Option R) (ph : Phase P) (c : Call R P)
      → c.phase ≡ ph
      → AtMost (extra settings a) c (cancel_request settings a ph c)
  cancel_request-sent none ph c e = (omega arith, omega arith)
  cancel_request-sent (some r) (Phase.waiting t p) c e = answer-sent r t p c e
  cancel_request-sent (some r) (Phase.sleeping t p) c e = (omega arith, omega arith)
  cancel_request-sent (some r) Phase.ended c e = (omega arith, omega arith)

  pub cancel-sent :
      (a : Option R) (c : Call R P) → AtMost (extra settings a) c (cancel settings a c)
  cancel-sent a c =
      cancel-Holds settings
        (λ ph sent answers. (c.sent ≤ sent) × (sent ≤ c.sent + extra settings a)) a c
        (omega arith, omega arith)
        (λ token.
          cancel_request-sent a c.phase (record c { cancelled = c.cancelled ++ token ∷ [] }) refl)
