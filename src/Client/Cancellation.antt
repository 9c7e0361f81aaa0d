-- ===== src/Client/Cancellation.antt =====
-- The classes CancellationToken and CancellationContext of
-- olp-cpp-sdk-core/include/olp/core/client/CancellationToken.h and CancellationContext.inl, with
-- src/client/CancellationToken.cpp. A token is a name for the function that it holds, `none` being a
-- token without one. What the functions do to the state `S` of the program is a function on `S`, which
-- holds the context. The mutex is recursive: a function that is called under it may use the context
-- again, and no other thread does meanwhile.
use here_olp_edge_sdk_cpp.Prelude.{Bool, true, false, Option, none, some}

pub record Impl (T : Type 0) : Type 0 where
  pub sub_operation_cancel_token : Option T
  pub is_cancelled : Bool

-- `none` is a context that was moved from.
abbrev pub CancellationContext : Type 0 → Type 0
CancellationContext T = Option (Impl T)

unfoldable pub new_context : {T : Type 0} → CancellationContext T
new_context = some (record { sub_operation_cancel_token = none; is_cancelled = false })

unfoldable pub is_cancelled : {T : Type 0} → CancellationContext T → Bool
is_cancelled none = false
is_cancelled (some impl) = impl.is_cancelled

-- Where the state holds the context.
pub record Holder (S T : Type 0) : Type 0 where
  pub context : S → CancellationContext T
  pub set_context : S → CancellationContext T → S

-- `call` is what calling the function of a token does.
unfoldable pub cancel_token : {S T : Type 0} → (call : T → S → S) → Option T → S → S
cancel_token call none s = s
cancel_token call (some token) s = call token s

module _ {S T : Type 0} (h : Holder S T) where
  -- The assignment of the token that `execute_fn` returns.
  abbrev pub store_token : CancellationContext T → Option T → S → S
  store_token none token s = s
  store_token (some impl) token s =
      h.set_context s (some (record impl { sub_operation_cancel_token = token }))

  abbrev pub execute : Option (S → Option T × S) → S → S
  execute none s = s
  execute (some execute_fn) s =
      store_token (h.context (execute_fn s).1) (execute_fn s).0 (execute_fn s).1

  abbrev pub execute_or : Bool → Option (S → Option T × S) → Option (S → S) → S → S
  execute_or true execute_fn (some cancel_fn) s = cancel_fn s
  execute_or true execute_fn none s = execute execute_fn s
  execute_or false execute_fn cancel_fn s = execute execute_fn s

  abbrev pub execute_in : CancellationContext T → Option (S → Option T × S) → Option (S → S) → S → S
  execute_in none execute_fn cancel_fn s = s
  execute_in (some impl) execute_fn cancel_fn s =
      execute_or impl.is_cancelled execute_fn cancel_fn s

  -- ExecuteOrCancelled()
  unfoldable pub execute_or_cancelled : Option (S → Option T × S) → Option (S → S) → S → S
  execute_or_cancelled execute_fn cancel_fn s = execute_in (h.context s) execute_fn cancel_fn s

  abbrev pub cancel_once : (T → S → S) → Bool → Option T → S → S
  cancel_once call true token s = s
  cancel_once call false token s =
      h.set_context (cancel_token call token s)
        (some (record { sub_operation_cancel_token = none; is_cancelled = true }))

  abbrev pub cancel_in : (T → S → S) → CancellationContext T → S → S
  cancel_in call none s = s
  cancel_in call (some impl) s =
      cancel_once call impl.is_cancelled impl.sub_operation_cancel_token s

  -- CancelOperation()
  unfoldable pub cancel_operation : (T → S → S) → S → S
  cancel_operation call s = cancel_in call (h.context s) s
