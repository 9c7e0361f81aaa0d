-- ===== src/Client/Retry/Cancelled.antt =====
-- The requests of a call that is cancelled, or whose token is gone.
use here_olp_edge_sdk_cpp.Prelude.{true, false, ◌≡◌, ◌⊎◌}
use here_olp_edge_sdk_cpp.Client.Cancellation.{is_cancelled}
use here_olp_edge_sdk_cpp.Client.Retry.{RetrySettings, Call}

module _ {R P : Type 0} (settings : RetrySettings R P) where
  -- No request can follow: the operation is cancelled, or nobody owns the context.
  abbrev IsStopped : Call R P → Type 0
  IsStopped c = (is_cancelled c.context ≡ true) ⊎ (c.has_owner ≡ false)

  -- The requests are as many, and the call is still stopped.
  abbrev Quiet : Call R P → Call R P → Type 0
  Quiet before after = (after.sent ≡ before.sent) × IsStopped after
