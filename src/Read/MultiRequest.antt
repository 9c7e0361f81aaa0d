-- ===== src/Read/MultiRequest.antt =====
-- The class template MultiRequestContext of olp-cpp-sdk-dataservice-read/src/MultiRequestContext.h:
-- requests with the same key share one execution.
-- The provider, which `execute_fn` starts and which a token cancels, is not code of this file. The
-- calls that the code makes of it and of the callbacks are events, the latest first; what the
-- provider does in answer is a further operation. Contexts are in a store, since an operation may
-- hold one that the map no longer has. A request id is a boost::uuids::uuid: an argument, since the
-- generator is not code of this file. `std::map` orders both maps by the given comparisons.
pub mod Once
pub mod Runs
pub mod Tests
use here_olp_edge_sdk_cpp.Prelude.{
  ℕ, suc, Bool, true, false, if◌then◌else◌, Option, none, some, List, [], ◌∷◌, ◌++◌, length, leb,
  ◌==◌,
}
use mathlib.Core.Logic.{ite}

-- RequestContext. Its address tells it from the others, and `has_token` says whether its token is
-- that of `execute_fn` or still the empty one.
pub record Context {ℓ} (U C : Type ℓ) : Type ℓ where
  pub address : ℕ
  pub has_token : Bool
  pub callbacks : List (U × C)

pub data Event {ℓ} (K C R : Type ℓ) : Type ℓ where
  executed : ℕ → K → Event K C R
  token_cancelled : ℕ → Bool → Event K C R
  called : C → R → Event K C R

pub record Requests {ℓ} (K U C R : Type ℓ) : Type ℓ where
  pub active : List (K × Context U C)
  pub next_address : ℕ
  pub events : List (Event K C R)

module _ {ℓ} {K : Type ℓ} {X : Type ℓ} (dec : Discrete K) where
  -- find(), erase(it) and `map[key] = x` of a `std::map` with distinct keys.
  abbrev pub find : K → List (K × X) → Option X
  find k [] = none
  find k (e ∷ es) = ite (dec e.0 k) (some e.1) (find k es)

  abbrev pub erase : K → List (K × X) → List (K × X)
  erase k [] = []
  erase k (e ∷ es) = ite (dec e.0 k) es (e ∷ erase k es)

  abbrev pub replace : K → X → List (K × X) → List (K × X)
  replace k x [] = []
  replace k x (e ∷ es) = ite (dec e.0 k) ((k, x) ∷ es) (e ∷ replace k x es)

  -- The place of a new key is that of the order, which `before` decides.
  abbrev pub place : (K → K → Bool) → K → X → List (K × X) → List (K × X)
  place before k x [] = (k, x) ∷ []
  place before k x (e ∷ es) =
      let rest = place before k x es in if before k e.0 then (k, x) ∷ e ∷ es else e ∷ rest

  abbrev pub assign_at : Option X → (K → K → Bool) → K → X → List (K × X) → List (K × X)
  assign_at none before k x es = place before k x es
  assign_at (some old) before k x es = replace k x es

  abbrev pub assign : (K → K → Bool) → K → X → List (K × X) → List (K × X)
  assign before k x es = assign_at (find k es) before k x es

module _ {ℓ} {K U C : Type ℓ} where
  abbrev pub with_token : ℕ → List (K × Context U C) → List (K × Context U C)
  with_token address [] = []
  with_token address (e ∷ es) =
      let rest = with_token address es in
      if e.1.address == address then (e.0, record e.1 { has_token = true }) ∷ rest else e ∷ rest

module _ {ℓ} {K U C R : Type ℓ} where
  abbrev pub call_each : List (U × C) → R → List (Event K C R) → List (Event K C R)
  call_each [] response events = events
  call_each (callback ∷ callbacks) response events =
      call_each callbacks response (called callback.1 response ∷ events)

module _ {ℓ} {K U C R : Type ℓ} (dec_key : Discrete K) (dec_id : Discrete U)
    (key_before : K → K → Bool) (id_before : U → U → Bool) where
  unfoldable pub no_requests : Requests K U C R
  no_requests = record { active = []; next_address = 0; events = [] }

  -- ExecuteOrAssociate(), up to the call of `execute_fn`, if there is one.
  abbrev pub associated : Requests K U C R → K → U → C → Option (Context U C) → Requests K U C R
  associated s key request_id callback_fn (some context) = record s {
    active =
        assign dec_key key_before key
          (record context {
            callbacks = assign dec_id id_before request_id callback_fn context.callbacks;
          })
          s.active;
  }
  associated s key request_id callback_fn none = record {
    active =
        assign dec_key key_before key
          (record {
            address = s.next_address;
            has_token = false;
            callbacks = (request_id, callback_fn) ∷ [];
          })
          s.active;
    next_address = suc s.next_address;
    events = executed s.next_address key ∷ s.events;
  }

  unfoldable pub execute_or_associate : Requests K U C R → K → U → C → Requests K U C R
  execute_or_associate s key request_id callback_fn =
      associated s key request_id callback_fn (find dec_key key s.active)

  -- The rest of ExecuteOrAssociate(), when `execute_fn` returns the token of a new context. A context
  -- that is not active any more is not used again.
  unfoldable pub execute_returned : Requests K U C R → ℕ → Requests K U C R
  execute_returned s address = record s { active = with_token address s.active }

  abbrev pub completed : Requests K U C R → K → R → Option (Context U C) → Requests K U C R
  completed s key response none = s
  completed s key response (some context) = record s {
    active = erase dec_key key s.active;
    events = call_each context.callbacks response s.events;
  }

  -- onRequestCompleted()
  unfoldable pub on_request_completed : Requests K U C R → K → R → Requests K U C R
  on_request_completed s key response = completed s key response (find dec_key key s.active)

  -- The callback that is found; the token of a last one is cancelled before the call.
  abbrev pub cancel_found : Requests K U C R → R → Context U C → Option C → Requests K U C R
  cancel_found s cancelled context none = s
  cancel_found s cancelled context (some callback) = record s {
    events =
        called callback cancelled
        ∷ (if leb (length context.callbacks) 1
            then token_cancelled context.address context.has_token ∷ s.events
            else s.events);
  }

  abbrev pub cancelled_in : Requests K U C R → R → K → U → Option (Context U C) → Requests K U C R
  cancelled_in s cancelled key request_id none = s
  cancelled_in s cancelled key request_id (some context) =
      cancel_found (record s { active = erase dec_key key s.active }) cancelled context
        (find dec_id request_id context.callbacks)

  -- onRequestCancelled()
  unfoldable pub on_request_cancelled : Requests K U C R → R → K → U → Requests K U C R
  on_request_cancelled s cancelled key request_id =
      cancelled_in s cancelled key request_id (find dec_key key s.active)
