-- ===== src/Read/MultiRequest/Once.antt =====
-- How often the callbacks are called.
pub mod Counts
use here_olp_edge_sdk_cpp.Prelude.{
  ℕ, ◌+◌, ◌≤◌, ◌≡◌, refl, ap, ◌==◌, leb, inl, inr, Bool-cases, Bool, false, Option, none, some,
  List, [], ◌∷◌, length, arith,
}
use here_olp_edge_sdk_cpp.Read.MultiRequest.{
  Context, Event, called, Requests, find, erase, assign, associated, execute_or_associate,
  execute_returned, call_each, completed, on_request_completed, cancel_found, cancelled_in,
  on_request_cancelled,
}
use here_olp_edge_sdk_cpp.Read.MultiRequest.Once.Counts.{
  called_in, calls, found-le, of, of_context, of_found, sum, sum-assign, sum-erase, waiting,
  waiting_in, with_token-waiting,
}

module _ {ℓ} {K U C R : Type ℓ} (dec_key : Discrete K) (dec_id : Discrete U)
    (key_before : K → K → Bool) (id_before : U → U → Bool) (w : C → ℕ) where
  associated-waiting :
      (s : Requests K U C R) (key : K) (request_id : U) (c : C) (o : Option (Context U C))
      → find dec_key key s.active ≡ o
      → waiting w (associated dec_key dec_id key_before id_before s key request_id c o)
        ≤ waiting w s + w c
  unfolding waiting waiting_in of_context sum of
  associated-waiting s key request_id c none h =
      let context : Context U C = record {
        address = s.next_address;
        has_token = false;
        callbacks = (request_id, c) ∷ [];
      } in
      omega (arith, sum-assign dec_key (of_context w) key_before key context s.active)
  associated-waiting s key request_id c (some context) h =
      let context' : Context U C = record context {
        callbacks = assign dec_id id_before request_id c context.callbacks;
      } in
      omega (
        arith,
        sum-assign dec_key (of_context w) key_before key context' s.active,
        ap (of (of_context w)) h,
        sum-assign dec_id w id_before request_id c context.callbacks,
      )

  associated-calls :
      (s : Requests K U C R) (key : K) (request_id : U) (c : C) (o : Option (Context U C))
      → calls w (associated dec_key dec_id key_before id_before s key request_id c o) ≡ calls w s
  unfolding calls called_in
  associated-calls s key request_id c none = refl
  associated-calls s key request_id c (some context) = refl

  call_each-calls :
      (callbacks : List (U × C)) (r : R) (events : List (Event K C R))
      → called_in w (call_each {U = U} callbacks r events) ≡ sum w callbacks + called_in w events
  unfolding called_in sum
  call_each-calls [] r events = omega arith
  call_each-calls (callback ∷ callbacks) r events =
      omega (arith, call_each-calls callbacks r (called callback.1 r ∷ events))

  completed-total :
      (s : Requests K U C R) (key : K) (r : R) (o : Option (Context U C))
      → find dec_key key s.active ≡ o
      → waiting w (completed dec_key dec_id key_before id_before s key r o)
          + calls w (completed dec_key dec_id key_before id_before s key r o)
        ≡ waiting w s + calls w s
  unfolding waiting waiting_in calls of_context of
  completed-total s key r none h = refl
  completed-total s key r (some context) h = omega (
    arith,
    sum-erase dec_key (of_context w) key s.active,
    ap (of (of_context w)) h,
    call_each-calls context.callbacks r s.events,
  )

  cancel_found-waiting :
      (s : Requests K U C R) (cancelled : R) (context : Context U C) (o : Option C)
      → waiting w (cancel_found dec_key dec_id key_before id_before s cancelled context o)
        ≡ waiting w s
  unfolding waiting
  cancel_found-waiting s cancelled context none = refl
  cancel_found-waiting s cancelled context (some c) = refl

  cancel_found-calls :
      (s : Requests K U C R) (cancelled : R) (context : Context U C) (o : Option C)
      → calls w (cancel_found dec_key dec_id key_before id_before s cancelled context o)
        ≡ calls w s + of w o
  unfolding calls called_in of
  cancel_found-calls s cancelled context none = omega arith
  cancel_found-calls s cancelled context (some c) =
      elim (Bool-cases (leb (length context.callbacks) 1)) [
        | inl h ↦ rw h (omega arith)
        | inr h ↦ rw h (omega arith)
      ]

  pub cancelled_in-total :
      (s : Requests K U C R) (cancelled : R) (key : K) (id : U) (o : Option (Context U C))
      → find dec_key key s.active ≡ o
      → (waiting w (cancelled_in dec_key dec_id key_before id_before s cancelled key id o)
            + of (of_context w) o
          ≡ waiting w s)
        × (calls w (cancelled_in dec_key dec_id key_before id_before s cancelled key id o)
            ≡ calls w s + of_found dec_id w id o)
  unfolding waiting waiting_in calls of of_found
  cancelled_in-total s cancelled key id none h = (omega arith, omega arith)
  cancelled_in-total s cancelled key id (some context) h =
      let erased : Requests K U C R = record s { active = erase dec_key key s.active } in
      (
        omega (
          arith,
          cancel_found-waiting erased cancelled context (find dec_id id context.callbacks),
          sum-erase dec_key (of_context w) key s.active,
          ap (of (of_context w)) h,
        ),
        cancel_found-calls erased cancelled context (find dec_id id context.callbacks),
      )

  -- Exact, where the id is new to the context.
  associated-total :
      (s : Requests K U C R) (key : K) (request_id : U) (c : C) (o : Option (Context U C))
      → find dec_key key s.active ≡ o
      → of_found dec_id w request_id o ≡ 0
      → waiting w (associated dec_key dec_id key_before id_before s key request_id c o)
        ≡ waiting w s + w c
  unfolding waiting waiting_in of_context sum of of_found
  associated-total s key request_id c none h fresh =
      let context : Context U C = record {
        address = s.next_address;
        has_token = false;
        callbacks = (request_id, c) ∷ [];
      } in
      omega (
        arith,
        sum-assign dec_key (of_context w) key_before key context s.active,
        ap (of (of_context w)) h,
      )
  associated-total s key request_id c (some context) h fresh =
      let context' : Context U C = record context {
        callbacks = assign dec_id id_before request_id c context.callbacks;
      } in
      omega (
        arith,
        fresh,
        sum-assign dec_key (of_context w) key_before key context' s.active,
        ap (of (of_context w)) h,
        sum-assign dec_id w id_before request_id c context.callbacks,
      )

  -- The sums, for the operations.
  pub associate-le :
      (s : Requests K U C R) (key : K) (id : U) (c : C)
      → waiting w (execute_or_associate dec_key dec_id key_before id_before s key id c)
          + calls w (execute_or_associate dec_key dec_id key_before id_before s key id c)
        ≤ waiting w s + calls w s + w c
  unfolding execute_or_associate
  associate-le s key id c = omega (
    arith,
    associated-waiting s key id c (find dec_key key s.active) refl,
    associated-calls s key id c (find dec_key key s.active),
  )

  pub associate-eq :
      (s : Requests K U C R) (key : K) (id : U) (c : C)
      → of_found dec_id w id (find dec_key key s.active) ≡ 0
      → waiting w (execute_or_associate dec_key dec_id key_before id_before s key id c)
          + calls w (execute_or_associate dec_key dec_id key_before id_before s key id c)
        ≡ waiting w s + calls w s + w c
  unfolding execute_or_associate
  associate-eq s key id c fresh = omega (
    arith,
    associated-total s key id c (find dec_key key s.active) refl fresh,
    associated-calls s key id c (find dec_key key s.active),
  )

  pub returned-eq :
      (s : Requests K U C R) (address : ℕ)
      → waiting w (execute_returned dec_key dec_id key_before id_before s address)
          + calls w (execute_returned dec_key dec_id key_before id_before s address)
        ≡ waiting w s + calls w s
  unfolding execute_returned waiting calls
  returned-eq s address = omega (arith, with_token-waiting w address s.active)

  pub completed-eq :
      (s : Requests K U C R) (key : K) (r : R)
      → waiting w (on_request_completed dec_key dec_id key_before id_before s key r)
          + calls w (on_request_completed dec_key dec_id key_before id_before s key r)
        ≡ waiting w s + calls w s
  unfolding on_request_completed
  completed-eq s key r = completed-total s key r (find dec_key key s.active) refl

  pub cancelled-le :
      (s : Requests K U C R) (cancelled : R) (key : K) (id : U)
      → waiting w (on_request_cancelled dec_key dec_id key_before id_before s cancelled key id)
          + calls w (on_request_cancelled dec_key dec_id key_before id_before s cancelled key id)
        ≤ waiting w s + calls w s
  unfolding on_request_cancelled
  cancelled-le s cancelled key id = omega (
    arith,
    cancelled_in-total s cancelled key id (find dec_key key s.active) refl,
    found-le dec_id w id (find dec_key key s.active),
  )

module _ {ℓ} {K U C R : Type ℓ} (w : C → ℕ) where
  pub waiting-none : (s : Requests K U C R) → s.active ≡ [] → waiting w s ≡ 0
  unfolding waiting waiting_in sum
  waiting-none s h = ap (waiting_in w) h

  pub begun-total :
      (s : Requests K U C R) → s.active ≡ [] → s.events ≡ [] → waiting w s + calls w s ≡ 0
  unfolding calls called_in
  begun-total s h h' = omega (arith, waiting-none s h, ap (called_in w) h')
