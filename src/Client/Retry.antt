-- ===== src/Client/Retry.antt =====
-- The retries of a call in olp-cpp-sdk-core/src/client/OlpClient.cpp, CallApi() and
-- GetRetryCallback(), with the settings RetrySettings of OlpClientSettings.h. The network is the
-- environment: it answers a request, once, at some time after the request is sent, and this may be
-- inside the cancellation of the request, as NetworkRequestPriorityQueueDecorator does for a request
-- that it has not sent on. A request is known by its number, and its number is the token that the
-- network gives for it. The sleep before a retry is a phase of its own, so that a cancellation may
-- come during it.
pub mod Sound
pub mod Once
pub mod Progress
pub mod Measure
pub mod Ends
pub mod Requests
pub mod Cancelled
pub mod Tests
use here_olp_edge_sdk_cpp.Prelude.{
  ℕ, ◌+◌, Bool, true, false, not, ◌||◌, Option, none, some, List, [], ◌∷◌, ◌++◌, leb, if◌then◌else◌,
}
use here_olp_edge_sdk_cpp.Prelude.Int.{ℤ, pos, negsuc}
use here_olp_edge_sdk_cpp.Client.Cancellation.{
  CancellationContext, Holder, new_context, execute_or_cancelled, cancel_operation,
}

-- RetrySettings, for responses `R` and periods `P`.
pub record RetrySettings (R P : Type 0) : Type 0 where
  pub max_attempts : ℤ
  pub initial_backdown_period : P
  pub backdown_policy : P → P
  pub retry_condition : R → Bool

-- What the callback of the call is given.
pub data Answer (R : Type 0) : Type 0 where
  response : R → Answer R
  operation_cancelled : Answer R
  unknown_error : Answer R

-- Where the chain of retry callbacks stands: with a request at the network, in the sleep before the
-- next one, or at its end. The variables are those that a retry callback captures.
pub data Phase (P : Type 0) : Type 0 where
  waiting : (current_try : ℕ) (period : P) → Phase P
  sleeping : (current_try : ℕ) (period : P) → Phase P
  ended : Phase P

-- `has_owner` is whether a copy of the token that CallApi() returned is left: the token alone owns the
-- context, which the retry callbacks see by a weak pointer.
pub record Call (R P : Type 0) : Type 0 where
  pub phase : Phase P
  pub context : CancellationContext ℕ
  pub has_owner : Bool
  pub sent : ℕ
  pub cancelled : List ℕ
  pub answers : List (Answer R)

-- `currentTry >= settings.max_attempts`
abbrev pub reached : ℕ → ℤ → Bool
reached current_try (pos n) = leb n current_try
reached current_try (negsuc n) = true

module _ {R P : Type 0} where
  abbrev pub holder : Holder (Call R P) ℕ
  holder = record {
    context = λ c. c.context;
    set_context = λ c context. record c { context = context };
  }

  -- The callback of the call.
  unfoldable pub callback : Answer R → Call R P → Call R P
  callback answer c = record c { phase = Phase.ended; answers = c.answers ++ answer ∷ [] }

  -- networkAsyncHandler(), with the callback that GetRetryCallback() makes.
  abbrev pub handle : ℕ → P → Call R P → Option ℕ × Call R P
  handle current_try period c =
      (some c.sent, record c { phase = Phase.waiting (current_try + 1) period; sent = c.sent + 1 })

  -- ExecuteOrCancelled() with the two functions of a call.
  unfoldable pub send : ℕ → P → Call R P → Call R P
  send current_try period =
      execute_or_cancelled holder (some (handle current_try period))
        (some (callback Answer.operation_cancelled))

  -- The end of the last copy of the token that CallApi() returns.
  unfoldable pub disown : Call R P → Call R P
  disown c = record c { has_owner = false }

module _ {R P : Type 0} (settings : RetrySettings R P) where
  unfoldable pub call_api : Call R P
  call_api = send 0 settings.initial_backdown_period (record {
    phase = Phase.ended;
    context = new_context;
    has_owner = true;
    sent = 0;
    cancelled = [];
    answers = [];
  })

  -- The retry callback, up to the sleep.
  abbrev pub respond_in : Phase P → R → Call R P → Call R P
  respond_in (Phase.waiting current_try period) r c =
      if reached current_try settings.max_attempts || not (settings.retry_condition r)
      then callback (Answer.response r) c
      else record c { phase = Phase.sleeping current_try period }
  respond_in (Phase.sleeping current_try period) r c = c
  respond_in Phase.ended r c = c

  unfoldable pub respond : R → Call R P → Call R P
  respond r c = respond_in c.phase r c

  -- The retry callback, after the sleep.
  abbrev pub wake_in : Phase P → Call R P → Call R P
  wake_in (Phase.sleeping current_try period) c =
      if c.has_owner
      then send current_try (settings.backdown_policy period) c
      else callback Answer.unknown_error c
  wake_in (Phase.waiting current_try period) c = c
  wake_in Phase.ended c = c

  unfoldable pub wake : Call R P → Call R P
  wake c = wake_in c.phase c

  -- The cancellation of a request at the network. A network that answers inside it, with `some r`,
  -- runs the whole retry callback: its sleep, and the request that it may send.
  abbrev pub cancel_request : Option R → Phase P → Call R P → Call R P
  cancel_request none ph c = c
  cancel_request (some r) (Phase.waiting current_try period) c = wake (respond r c)
  cancel_request (some r) (Phase.sleeping current_try period) c = c
  cancel_request (some r) Phase.ended c = c

  abbrev pub call_token : Option R → ℕ → Call R P → Call R P
  call_token answer token c =
      cancel_request answer c.phase (record c { cancelled = c.cancelled ++ token ∷ [] })

  -- The token that CallApi() returns.
  unfoldable pub cancel : Option R → Call R P → Call R P
  cancel answer c = if c.has_owner then cancel_operation holder (call_token answer) c else c

-- A cancellation comes with the answer that the network gives inside it, if any.
pub data Event (R : Type 0) : Type 0 where
  responds : R → Event R
  wakes : Event R
  cancels : Option R → Event R
  disowns : Event R

module _ {R P : Type 0} (settings : RetrySettings R P) where
  unfoldable pub step : Event R → Call R P → Call R P
  step (Event.responds r) c = respond settings r c
  step Event.wakes c = wake settings c
  step (Event.cancels answer) c = cancel settings answer c
  step Event.disowns c = disown c

  unfoldable pub run : List (Event R) → Call R P → Call R P
  run [] c = c
  run (e ∷ es) c = run es (step e c)
