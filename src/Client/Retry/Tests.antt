-- ===== src/Client/Retry/Tests.antt =====
-- A call with three attempts, whose responses are numbers: those from 500 on are retried.
use here_olp_edge_sdk_cpp.Prelude.{
  ℕ, ◌+◌, ◌≤◌, true, some, none, List, [], ◌∷◌, length, leb, if◌then◌else◌, ◌≡◌, refl, arith,
}
use here_olp_edge_sdk_cpp.Prelude.Int.{pos}
use here_olp_edge_sdk_cpp.Client.Cancellation.{
  new_context, execute_or_cancelled, cancel_operation, cancel_token,
}
use here_olp_edge_sdk_cpp.Client.Retry.{
  RetrySettings, Answer, Phase, Event, callback, send, cancel, disown, call_api, respond, wake,
  step, run,
}
use here_olp_edge_sdk_cpp.Client.Retry.Sound.{limit}
use here_olp_edge_sdk_cpp.Client.Retry.Once.{has_ended, run_bounds}
use here_olp_edge_sdk_cpp.Client.Retry.Progress.{rounds, deciding, answers_of, run-rounds}
use here_olp_edge_sdk_cpp.Client.Retry.Ends.{run_all, run_all_ends}

abbrev three : RetrySettings ℕ ℕ
three = record {
  max_attempts = pos 3;
  initial_backdown_period = 200;
  backdown_policy = λ p. p + p;
  retry_condition = λ r. leb 500 r;
}

abbrev unlucky : List (Event ℕ)
unlucky = Event.responds 503 ∷ Event.wakes ∷ Event.responds 502 ∷ []

-- The call is cancelled in the sleep after its second request.
cancelled_in_sleep :
    run three (Event.cancels none ∷ Event.wakes ∷ []) (run three unlucky (call_api three))
    ≡ record {
      phase = Phase.ended;
      context = some (record { sub_operation_cancel_token = none; is_cancelled = true });
      has_owner = true;
      sent = 2;
      cancelled = 1 ∷ [];
      answers = Answer.operation_cancelled ∷ [];
    }
unfolding run step respond wake cancel cancel_operation cancel_token call_api send
    execute_or_cancelled callback new_context
cancelled_in_sleep = refl

-- The network answers inside the cancellation, and the response is one to be retried: a request is sent
-- that nobody cancels.
sent_while_cancelled : run three (Event.cancels (some 503) ∷ []) (call_api three) ≡ record {
  phase = Phase.waiting 2 400;
  context = some (record { sub_operation_cancel_token = none; is_cancelled = true });
  has_owner = true;
  sent = 2;
  cancelled = 0 ∷ [];
  answers = [];
}
unfolding run step respond wake cancel cancel_operation cancel_token call_api send
    execute_or_cancelled callback new_context
sent_while_cancelled = refl

-- The token is lost before the first response.
lost_token :
    (run three (Event.disowns ∷ Event.responds 503 ∷ Event.wakes ∷ []) (call_api three)).answers
    ≡ Answer.unknown_error ∷ []
unfolding run step respond wake disown call_api send execute_or_cancelled callback new_context
lost_token = refl

run_bounds_example :
    (1 ≤ (run three unlucky (call_api three)).sent)
    × ((run three unlucky (call_api three)).sent ≤ limit (pos 3))
    × (length (run three unlucky (call_api three)).answers
        ≡ (if has_ended (run three unlucky (call_api three)).phase then 1 else 0))
run_bounds_example = run_bounds three unlucky

run-rounds_example :
    (run three (rounds (503 ∷ 200 ∷ [])) (call_api three)).answers
    ≡ answers_of three (deciding three (limit (pos 3)) (503 ∷ 200 ∷ []))
run-rounds_example = run-rounds three (503 ∷ 200 ∷ [])

abbrev stretch : List (Event ℕ)
stretch = Event.responds 503 ∷ Event.disowns ∷ Event.wakes ∷ []

abbrev six : List (List (Event ℕ))
six = stretch ∷ stretch ∷ stretch ∷ stretch ∷ stretch ∷ stretch ∷ []

run_all_ends_example :
    (has_ended (run_all three six (call_api three)).phase ≡ true)
    × (length (run_all three six (call_api three)).answers ≡ 1)
run_all_ends_example =
    run_all_ends three six (refl, (refl, (refl, (refl, (refl, (refl, tt)))))) (omega arith)
