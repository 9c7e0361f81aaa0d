-- ===== src/Read/MultiRequest/Tests.antt =====
-- MultiRequestContext in a concrete run: numbers for keys, ids, callbacks and responses.
use here_olp_edge_sdk_cpp.Prelude.{ℕ, ◌+◌, ◌≤◌, ◌≡◌, refl, [], ◌∷◌, ltb}
use here_olp_edge_sdk_cpp.Read.MultiRequest.{
  Requests, find, no_requests, execute_or_associate, on_request_completed, on_request_cancelled,
}
use here_olp_edge_sdk_cpp.Read.MultiRequest.Once.Counts.{waiting, calls, of, of_context, of_found}
use here_olp_edge_sdk_cpp.Read.MultiRequest.Runs.{
  Run, begun, associating, cancelling, Calm, completing, weight, calls-le-given, calls-given,
  cancel-drops,
}
use native.Mathlib.Decide.{ℕ_discrete}

abbrev start : Requests ℕ ℕ ℕ ℕ
start = no_requests ℕ_discrete ℕ_discrete ltb ltb

abbrev first : Requests ℕ ℕ ℕ ℕ
first = execute_or_associate ℕ_discrete ℕ_discrete ltb ltb start 7 1 10

abbrev second : Requests ℕ ℕ ℕ ℕ
second = execute_or_associate ℕ_discrete ℕ_discrete ltb ltb first 7 2 20

abbrev once : ℕ → ℕ
once c = 1

cancelled-Run :
    Run ℕ_discrete ℕ_discrete ltb ltb
      (on_request_cancelled ℕ_discrete ℕ_discrete ltb ltb second 0 7 1)
      (20 ∷ 10 ∷ [])
cancelled-Run = cancelling 0 7 1 (associating 7 2 20 (associating 7 1 10 begun))

calls-le-given_example :
    calls once (on_request_cancelled ℕ_discrete ℕ_discrete ltb ltb second 0 7 1)
    ≤ weight once (20 ∷ 10 ∷ [])
calls-le-given_example = calls-le-given ℕ_discrete ℕ_discrete ltb ltb once cancelled-Run

abbrev answered : Requests ℕ ℕ ℕ ℕ
answered = on_request_completed ℕ_discrete ℕ_discrete ltb ltb second 7 99

answered-Calm : Calm ℕ_discrete ℕ_discrete ltb ltb answered (20 ∷ 10 ∷ [])
unfolding no_requests execute_or_associate of_found of ℕ_discrete
answered-Calm =
    completing 7 99 (associating 7 2 20 (λ w. refl) (associating 7 1 10 (λ w. refl) begun))

answered-idle : answered.active ≡ []
unfolding no_requests execute_or_associate on_request_completed ℕ_discrete
answered-idle = refl

calls-given_example : calls once answered ≡ weight once (20 ∷ 10 ∷ [])
calls-given_example = calls-given ℕ_discrete ℕ_discrete ltb ltb once answered-Calm answered-idle

cancel-drops_example :
    (waiting once (on_request_cancelled ℕ_discrete ℕ_discrete ltb ltb second 0 7 1)
        + of (of_context once) (find ℕ_discrete 7 second.active)
      ≡ waiting once second)
    × (calls once (on_request_cancelled ℕ_discrete ℕ_discrete ltb ltb second 0 7 1)
        ≡ calls once second + of_found ℕ_discrete once 1 (find ℕ_discrete 7 second.active))
cancel-drops_example = cancel-drops ℕ_discrete ℕ_discrete ltb ltb once second 0 7 1
