-- ===== src/Client/Retry/Sound.antt =====
-- The invariant of a call: how many requests it has made, and when it is answered.
use here_olp_edge_sdk_cpp.Prelude.{
  ℕ, zero, suc, ◌+◌, ◌≤◌, Bool, true, false, inl, inr, Bool-cases, Option, none, some, [], ◌∷◌,
  length, length-append, if◌then◌else◌, ◌≡◌, sym, arith, ◌⊎◌,
}
use here_olp_edge_sdk_cpp.Prelude.Int.{ℤ, pos, negsuc}
use here_olp_edge_sdk_cpp.Client.Cancellation.{
  CancellationContext, execute_or_cancelled, is_cancelled, store_token, execute_in, execute_or,
}
use here_olp_edge_sdk_cpp.Client.Retry.{
  RetrySettings, Answer, Phase, Call, reached, callback, handle, holder, send, respond_in, wake_in,
}
use mathlib.Core.Path.{subst}

-- The most requests that a call makes: one at least.
abbrev pub limit : ℤ → ℕ
limit (pos zero) = 1
limit (pos (suc n)) = suc n
limit (negsuc n) = 1

abbrev pub IsThere : CancellationContext ℕ → Type 0
IsThere none = ⊥
IsThere (some impl) = Unit

-- A request more is made at the end of a sleep; the call is answered when it has ended.
abbrev pub PhaseFits : {P : Type 0} → ℕ → Phase P → ℕ → ℕ → Type 0
PhaseFits most (Phase.waiting t p) sent answers = (sent ≡ t) × (1 ≤ t) × (t ≤ most) × (answers ≡ 0)
PhaseFits most (Phase.sleeping t p) sent answers =
    (sent ≡ t) × (1 ≤ t) × (t + 1 ≤ most) × (answers ≡ 0)
PhaseFits most Phase.ended sent answers = (1 ≤ sent) × (sent ≤ most) × (answers ≡ 1)

pub record IsSound {R P : Type 0} (most : ℕ) (c : Call R P) : Type 0 where
  pub fits : PhaseFits most c.phase c.sent (length c.answers)
  pub there : IsThere c.context

pub limit_pos : (max : ℤ) → 1 ≤ limit max
limit_pos (pos zero) = omega arith
limit_pos (pos (suc n)) = omega arith
limit_pos (negsuc n) = omega arith

-- A try that is not the last leaves one.
not_reached : (t : ℕ) (max : ℤ) → reached t max ≡ false → t + 1 ≤ limit max
not_reached t (pos zero) h = ground arith
not_reached t (pos (suc n)) h = ground arith
not_reached t (negsuc n) h = cc

module _ {R P : Type 0} where
  callback-IsSound :
      (most : ℕ) (answer : Answer R) (c : Call R P)
      → 1 ≤ c.sent
      → c.sent ≤ most
      → length c.answers ≡ 0
      → IsThere c.context
      → IsSound most (callback answer c)
  unfolding callback
  callback-IsSound most answer c low high none_yet there = record {
    fits = (low, high, omega (arith, length-append c.answers (answer ∷ [])));
    there = there;
  }

  store_token-IsSound :
      (most : ℕ) (context : CancellationContext ℕ) (token : Option ℕ) (c : Call R P)
      → IsThere context
      → PhaseFits most c.phase c.sent (length c.answers)
      → IsSound most (store_token holder context token c)
  store_token-IsSound most none token c there fits = absurd there
  store_token-IsSound most (some impl) token c there fits = record { fits = fits; there = tt }

  execute_or-IsSound :
      (most t : ℕ) (p : P) (c : Call R P) (stopped : Bool)
      → IsThere c.context
      → c.sent ≡ t
      → t + 1 ≤ most
      → length c.answers ≡ 0
      → (1 ≤ t) ⊎ (stopped ≡ false)
      → IsSound most (
          execute_or holder stopped
            (some (handle t p))
            (some (callback Answer.operation_cancelled))
            c)
  execute_or-IsSound most t p c true there sent left none_yet (inl h) =
      callback-IsSound most Answer.operation_cancelled c (omega (arith, sent, h))
        (omega (arith, sent, left)) none_yet there
  execute_or-IsSound most t p c true there sent left none_yet (inr h) = cc
  execute_or-IsSound most t p c false there sent left none_yet h =
      store_token-IsSound most c.context (some c.sent)
        (record c { phase = Phase.waiting (t + 1) p; sent = c.sent + 1 }) there
        (omega (arith, sent), omega arith, left, none_yet)

  execute_in-IsSound :
      (most t : ℕ) (p : P) (c : Call R P) (context : CancellationContext ℕ)
      → IsThere context
      → IsThere c.context
      → c.sent ≡ t
      → t + 1 ≤ most
      → length c.answers ≡ 0
      → (1 ≤ t) ⊎ (is_cancelled context ≡ false)
      → IsSound most (
          execute_in holder context
            (some (handle t p))
            (some (callback Answer.operation_cancelled))
            c)
  unfolding is_cancelled
  execute_in-IsSound most t p c none here there sent left none_yet fresh = absurd here
  execute_in-IsSound most t p c (some impl) here there sent left none_yet fresh =
      execute_or-IsSound most t p c impl.is_cancelled there sent left none_yet fresh

  pub send-IsSound :
      (most t : ℕ) (p : P) (c : Call R P)
      → IsThere c.context
      → c.sent ≡ t
      → t + 1 ≤ most
      → length c.answers ≡ 0
      → (1 ≤ t) ⊎ (is_cancelled c.context ≡ false)
      → IsSound most (send t p c)
  unfolding send execute_or_cancelled
  send-IsSound most t p c there sent left none_yet fresh =
      execute_in-IsSound most t p c c.context there there sent left none_yet fresh

module _ {R P : Type 0} (settings : RetrySettings R P) where
  -- A phase in which nothing happens.
  same-IsSound :
      (most : ℕ) (ph : Phase P) (c : Call R P)
      → c.phase ≡ ph
      → PhaseFits most ph c.sent (length c.answers)
      → IsThere c.context
      → IsSound most c
  same-IsSound most ph c e fits there = record {
    fits = subst (λ (q : Phase P). PhaseFits most q c.sent (length c.answers)) (sym e) fits;
    there = there;
  }

  pub respond_in-IsSound :
      (ph : Phase P) (r : R) (c : Call R P)
      → c.phase ≡ ph
      → PhaseFits (limit settings.max_attempts) ph c.sent (length c.answers)
      → IsThere c.context
      → IsSound (limit settings.max_attempts) (respond_in settings ph r c)
  respond_in-IsSound (Phase.waiting t p) r c e (sent, low, high, none_yet) there =
      elim (Bool-cases (reached t settings.max_attempts)) [
        | inl last ↦ rw last (
            callback-IsSound (limit settings.max_attempts) (Answer.response r) c
              (omega (arith, sent, low)) (omega (arith, sent, high)) none_yet there)
        | inr more ↦ elim (Bool-cases (settings.retry_condition r)) [
          | inl again ↦
              rw (more, again)
                (record {
                  fits = (sent, low, not_reached t settings.max_attempts more, none_yet);
                  there = there;
                })
          | inr good ↦
              rw (more, good)
                (callback-IsSound (limit settings.max_attempts) (Answer.response r) c
                  (omega (arith, sent, low)) (omega (arith, sent, high)) none_yet there)
        ]
      ]
  respond_in-IsSound (Phase.sleeping t p) r c e fits there =
      same-IsSound (limit settings.max_attempts) (Phase.sleeping t p) c e fits there
  respond_in-IsSound Phase.ended r c e fits there =
      same-IsSound (limit settings.max_attempts) Phase.ended c e fits there

  -- What is claimed of the end of a sleep, for each answer to whether the call has an owner.
  abbrev Awake : ℕ → P → Call R P → Bool → Type 0
  Awake t p c owned =
      IsSound (limit settings.max_attempts)
        (if owned then send t (settings.backdown_policy p) c else callback Answer.unknown_error c)

  pub wake_in-IsSound :
      (ph : Phase P) (c : Call R P)
      → c.phase ≡ ph
      → PhaseFits (limit settings.max_attempts) ph c.sent (length c.answers)
      → IsThere c.context
      → IsSound (limit settings.max_attempts) (wake_in settings ph c)
  wake_in-IsSound (Phase.sleeping t p) c e (sent, low, left, none_yet) there =
      elim (Bool-cases c.has_owner) [
        | inl owned ↦ subst (Awake t p c) (sym owned) (
            send-IsSound (limit settings.max_attempts) t (settings.backdown_policy p) c there sent
              left none_yet (inl low))
        | inr lost ↦ subst (Awake t p c) (sym lost) (
            callback-IsSound (limit settings.max_attempts) Answer.unknown_error c
              (omega (arith, sent, low)) (omega (arith, sent, left)) none_yet there)
      ]
  wake_in-IsSound (Phase.waiting t p) c e fits there =
      same-IsSound (limit settings.max_attempts) (Phase.waiting t p) c e fits there
  wake_in-IsSound Phase.ended c e fits there =
      same-IsSound (limit settings.max_attempts) Phase.ended c e fits there
