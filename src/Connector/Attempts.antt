-- ===== src/Connector/Attempts.antt =====
-- Attempts to connect that fail.
use websocket_cpp.Base.{
  ℕ, ◌≡◌, refl, List, [], ◌∷◌, ◌++◌, true, false, ◌==◌, some, ok, flatten, map, arith,
}
use websocket_cpp.Connector.{
  Connector, new_connector, Effect, close_fd, new_handler, delete_handler, retry, reset_event,
  handle_write, connect_impl, connect, start_in_loop, goes_on, may_retry,
}
use websocket_cpp.Connector.Runs.{Event, start, write_ready, step, run}

-- A call of `start` that is refused at once or while the connector waits, or one that fails with an error
-- for which `connect` does nothing.
pub data Attempt : Type 0 where
  refused : (sockfd : ℕ) → (error : ℕ) → goes_on error ≡ false → may_retry error ≡ true → Attempt
  abandoned : (sockfd : ℕ) → (error : ℕ) → goes_on error ≡ false → may_retry error ≡ false → Attempt
  broken :
      (sockfd : ℕ)
      → (error : ℕ) → (later : ℕ) → goes_on error ≡ true
      → (later == 0) ≡ false
      → Attempt

abbrev pub events : Attempt → List Event
events (refused sockfd error g r) = start sockfd error ∷ []
events (abandoned sockfd error g r) = start sockfd error ∷ []
events (broken sockfd error later g n) = start sockfd error ∷ write_ready later ∷ []

abbrev pub effects : Attempt → List Effect
effects (refused sockfd error g r) = close_fd sockfd ∷ []
effects (abandoned sockfd error g r) = []
effects (broken sockfd error later g n) =
    new_handler sockfd ∷ delete_handler sockfd ∷ close_fd sockfd ∷ []

step_refused :
    (sockfd error : ℕ)
    → goes_on error ≡ false
    → may_retry error ≡ true
    → step (start sockfd error) new_connector ≡ ok (close_fd sockfd ∷ [], new_connector)
unfolding step start_in_loop connect retry
step_refused sockfd error g r = rw (connect, g, r) refl

step_abandoned :
    (sockfd error : ℕ)
    → goes_on error ≡ false
    → may_retry error ≡ false
    → step (start sockfd error) new_connector ≡ ok ([], new_connector)
unfolding step start_in_loop connect
step_abandoned sockfd error g r = rw (connect, g, r) refl

step-goes_on :
    (sockfd error : ℕ)
    → goes_on error ≡ true
    → step (start sockfd error) new_connector
      ≡ ok (new_handler sockfd ∷ [], record new_connector { event = some sockfd })
unfolding step start_in_loop connect connect_impl
step-goes_on sockfd error g = rw (connect, g) refl

step_broken :
    (sockfd later : ℕ)
    → (later == 0) ≡ false
    → step (write_ready later) (record new_connector { event = some sockfd })
      ≡ ok (delete_handler sockfd ∷ close_fd sockfd ∷ [], new_connector)
unfolding step handle_write retry reset_event
step_broken sockfd later n = ground arith

run_attempt :
    (a : Attempt) (es : List Event) (acts : List Effect) (c : Connector)
    → run es new_connector ≡ ok (acts, c)
    → run (events a ++ es) new_connector ≡ ok (effects a ++ acts, c)
unfolding run
run_attempt (refused sockfd error g r) es acts c h = rw (run, step_refused sockfd error g r, h) refl
run_attempt (abandoned sockfd error g r) es acts c h =
    rw (run, step_abandoned sockfd error g r, h) refl
run_attempt (broken sockfd error later g n) es acts c h =
    rw (run, step-goes_on sockfd error g, step_broken sockfd later n, h) refl

-- Failed attempts, any number and with any error: each leaves the connector as it was made. One that fails
-- with EAGAIN, EADDRINUSE, EADDRNOTAVAIL or ECONNREFUSED, or after a wait, closes its own socket, and
-- deletes the handler if it had one. One that fails at once with any other error does nothing at all: its
-- socket stays open, and no one holds its descriptor any more. None arms a timer that would try again.
pub failed_attempts :
    (xs : List Attempt)
    → run (flatten (map events xs)) new_connector ≡ ok (flatten (map effects xs), new_connector)
unfolding run flatten
failed_attempts [] = refl
failed_attempts (x ∷ xs) = run_attempt x (flatten (map events xs)) _ _ (failed_attempts xs)
