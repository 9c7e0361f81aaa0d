-- ===== src/Read/MultiRequest/Runs.antt =====
-- Any sequence of requests, completions and cancellations.
use here_olp_edge_sdk_cpp.Prelude.{ℕ, ◌+◌, ◌≤◌, ◌≡◌, refl, Bool, List, [], ◌∷◌, arith}
use here_olp_edge_sdk_cpp.Read.MultiRequest.{
  Requests, find, no_requests, execute_or_associate, execute_returned, on_request_completed,
  on_request_cancelled,
}
use here_olp_edge_sdk_cpp.Read.MultiRequest.Once.{
  associate-le, associate-eq, returned-eq, completed-eq, cancelled-le, cancelled_in-total,
  waiting-none, begun-total,
}
use here_olp_edge_sdk_cpp.Read.MultiRequest.Once.Counts.{waiting, calls, of, of_context, of_found}

abbrev pub weight {ℓ} : {C : Type ℓ} → (C → ℕ) → List C → ℕ
weight w [] = 0
weight w (c ∷ cs) = w c + weight w cs

module _ {ℓ} {K U C R : Type ℓ} (dec_key : Discrete K) (dec_id : Discrete U)
    (key_before : K → K → Bool) (id_before : U → U → Bool) where
  -- The states that operations lead to, with the callbacks that were given to ExecuteOrAssociate().
  pub data Run : Requests K U C R → List C → Type ℓ where
    begun : Run (no_requests dec_key dec_id key_before id_before) []
    associating :
        {s : Requests K U C R} {given : List C} (key : K) (id : U) (c : C)
        → Run s given
        → Run (execute_or_associate dec_key dec_id key_before id_before s key id c) (c ∷ given)
    returning :
        {s : Requests K U C R} {given : List C} (address : ℕ)
        → Run s given
        → Run (execute_returned dec_key dec_id key_before id_before s address) given
    completing :
        {s : Requests K U C R} {given : List C} (key : K) (r : R)
        → Run s given
        → Run (on_request_completed dec_key dec_id key_before id_before s key r) given
    cancelling :
        {s : Requests K U C R} {given : List C} (cancelled : R) (key : K) (id : U)
        → Run s given
        → Run (on_request_cancelled dec_key dec_id key_before id_before s cancelled key id) given

  -- The same without cancellations, where each id is new to the context that takes it.
  pub data Calm : Requests K U C R → List C → Type ℓ where
    begun : Calm (no_requests dec_key dec_id key_before id_before) []
    associating :
        {s : Requests K U C R} {given : List C} (key : K) (id : U) (c : C)
        → ((w : C → ℕ) → of_found dec_id w id (find dec_key key s.active) ≡ 0)
        → Calm s given
        → Calm (execute_or_associate dec_key dec_id key_before id_before s key id c) (c ∷ given)
    returning :
        {s : Requests K U C R} {given : List C} (address : ℕ)
        → Calm s given
        → Calm (execute_returned dec_key dec_id key_before id_before s address) given
    completing :
        {s : Requests K U C R} {given : List C} (key : K) (r : R)
        → Calm s given
        → Calm (on_request_completed dec_key dec_id key_before id_before s key r) given

  module _ (w : C → ℕ) where
    Run-le :
        {s : Requests K U C R} {given : List C}
        → Run s given
        → waiting w s + calls w s ≤ weight w given
    unfolding no_requests
    Run-le begun =
        omega (arith, begun-total w (no_requests dec_key dec_id key_before id_before) refl refl)
    Run-le (associating {s = s} key id c run) =
        omega (arith, Run-le run, associate-le dec_key dec_id key_before id_before w s key id c)
    Run-le (returning {s = s} address run) =
        omega (arith, Run-le run, returned-eq dec_key dec_id key_before id_before w s address)
    Run-le (completing {s = s} key r run) =
        omega (arith, Run-le run, completed-eq dec_key dec_id key_before id_before w s key r)
    Run-le (cancelling {s = s} cancelled key id run) =
        omega
          (arith, Run-le run, cancelled-le dec_key dec_id key_before id_before w s cancelled key id)

    -- For any weight of the callbacks: those that were called weigh no more than those that were
    -- given, after any operations. So none is called more often than it was given.
    pub calls-le-given :
        {s : Requests K U C R} {given : List C} → Run s given → calls w s ≤ weight w given
    calls-le-given run = omega (arith, Run-le run)

    Calm-eq :
        {s : Requests K U C R} {given : List C}
        → Calm s given
        → waiting w s + calls w s ≡ weight w given
    unfolding no_requests
    Calm-eq begun =
        omega (arith, begun-total w (no_requests dec_key dec_id key_before id_before) refl refl)
    Calm-eq (associating {s = s} key id c fresh run) = omega (
      arith,
      Calm-eq run,
      associate-eq dec_key dec_id key_before id_before w s key id c (fresh w),
    )
    Calm-eq (returning {s = s} address run) =
        omega (arith, Calm-eq run, returned-eq dec_key dec_id key_before id_before w s address)
    Calm-eq (completing {s = s} key r run) =
        omega (arith, Calm-eq run, completed-eq dec_key dec_id key_before id_before w s key r)

    -- Without cancellations, and where each id is new to the context that takes it, no callback is
    -- lost: once no request is active, those that were called weigh what those weigh that were given,
    -- for any weight. So each is called as often as it was given.
    pub calls-given :
        {s : Requests K U C R} {given : List C}
        → Calm s given
        → s.active ≡ []
        → calls w s ≡ weight w given
    calls-given {s = s} run idle = omega (arith, Calm-eq run, waiting-none w s idle)

    -- A cancellation calls at most the one callback that it is about, but the request leaves the map
    -- with all callbacks that wait for it: the waiting ones lose the weight of all of them, and the
    -- called ones gain that of the one.
    pub cancel-drops :
        (s : Requests K U C R) (cancelled : R) (key : K) (id : U)
        → (waiting w (on_request_cancelled dec_key dec_id key_before id_before s cancelled key id)
              + of (of_context w) (find dec_key key s.active)
            ≡ waiting w s)
          × (calls w (on_request_cancelled dec_key dec_id key_before id_before s cancelled key id)
              ≡ calls w s + of_found dec_id w id (find dec_key key s.active))
    unfolding on_request_cancelled
    cancel-drops s cancelled key id =
        cancelled_in-total dec_key dec_id key_before id_before w s cancelled key id
          (find dec_key key s.active) refl
