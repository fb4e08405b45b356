-- ===== src/NetConnection/Runs.antt =====
-- Whole runs of a connection: any calls and events, in any order.
use websocket_cpp.Base.{
  ℕ, ◌<◌, ◌≡◌, refl, subst, List, [], ◌∷◌, ◌++◌, Bool, true, false, if◌then◌else◌, Option, ok,
  ◌>>=◌, Bool-cases, inl, inr,
}
use websocket_cpp.Buffer.{readable_bytes}
use websocket_cpp.Poller.{hand_event}
use websocket_cpp.NetConnection.{
  NetConnection, disconnected, queue, is_connected, WriteResult, Task, send_task, close_task,
  shutdown_task, Effect, Outcome, handler, handle_close, send_in_reactor, send, force_close,
  conn_established, shutdown_in_reactor, shutdown, run_task, handle_event,
}
use websocket_cpp.NetConnection.Sending.{wired}
use websocket_cpp.NetConnection.Stranded.{
  Quiet, Quiet-bind, Quiet-then, handle_close-Quiet, call_backs-Quiet, send_in_reactor-Quiet,
  shutdown_in_reactor-Quiet,
}

-- What can happen to a connection: an event of its descriptor, a call of one of its public functions from
-- the thread of the loop or from another one, and a queued function that the loop runs.
pub data Call : Type 0 where
  event : (revents : ℕ) (answer : Option (List ℕ)) → Call
  call_send : (in_loop : Bool) (answer : WriteResult) (bytes : List ℕ) → Call
  call_force_close call_shutdown : (in_loop : Bool) → Call
  call_established : Call
  queued : (answer : WriteResult) (task : Task) → Call

unfoldable pub perform : ℕ → Call → NetConnection → Outcome
perform junk (event revents answer) c = handle_event junk revents answer c
perform junk (call_send in_loop answer bytes) c = send in_loop junk answer c bytes
perform junk (call_force_close in_loop) c = force_close in_loop c
perform junk (call_shutdown in_loop) c = shutdown in_loop c
perform junk call_established c = conn_established c
perform junk (queued answer task) c = run_task junk answer task c

unfoldable pub run : ℕ → List Call → NetConnection → Outcome
run junk [] c = ok ([], c)
run junk (k ∷ ks) c = do
  (now, d) ← perform junk k c
  (later, e) ← run junk ks d
  ok (now ++ later, e)

handle_event-Quiet :
    (junk revents : ℕ) (answer : Option (List ℕ)) (c : NetConnection)
    → Quiet c.write_buffer (handle_event junk revents answer c)
unfolding handle_event
handle_event-Quiet junk revents answer c = call_backs-Quiet junk answer (hand_event revents) c

send-Quiet :
    (in_loop : Bool) (junk : ℕ) (answer : WriteResult) (c : NetConnection) (bytes : List ℕ)
    → 0 < readable_bytes c.write_buffer
    → Quiet c.write_buffer (send in_loop junk answer c bytes)
unfolding send
send-Quiet in_loop junk answer c bytes busy = elim (Bool-cases (is_connected c.state)) [
  | inl y ↦ rw y (go in_loop)
  | inr n ↦ rw n (refl, refl)
]
  where
    go :
        (b : Bool)
        → Quiet c.write_buffer (
            if b then send_in_reactor junk answer c bytes else ok (queue (send_task bytes) ∷ [], c))
    go true = send_in_reactor-Quiet junk answer c bytes busy
    go false = (refl, refl)

force_close-Quiet :
    (in_loop : Bool) (c : NetConnection) → Quiet c.write_buffer (force_close in_loop c)
unfolding force_close
force_close-Quiet in_loop c = elim (Bool-cases (is_connected c.state)) [
  | inl y ↦ rw y (go in_loop)
  | inr n ↦ rw n (refl, refl)
]
  where
    d : NetConnection
    d = record c { state = disconnected }

    go :
        (b : Bool)
        → Quiet c.write_buffer (if b then handle_close d else ok (queue close_task ∷ [], d))
    go true = handle_close-Quiet d
    go false = (refl, refl)

shutdown-Quiet : (in_loop : Bool) (c : NetConnection) → Quiet c.write_buffer (shutdown in_loop c)
unfolding shutdown
shutdown-Quiet in_loop c = elim (Bool-cases (is_connected c.state)) [
  | inl y ↦ rw y (go in_loop)
  | inr n ↦ rw n (refl, refl)
]
  where
    go :
        (b : Bool)
        → Quiet c.write_buffer
            (if b then shutdown_in_reactor c else ok (queue shutdown_task ∷ [], c))
    go true = shutdown_in_reactor-Quiet c
    go false = (refl, refl)

conn_established-Quiet : (c : NetConnection) → Quiet c.write_buffer (conn_established c)
unfolding conn_established
conn_established-Quiet c = Quiet-bind c.write_buffer (handler c) _ (λ ev. (refl, refl))

perform-Quiet :
    (junk : ℕ) (k : Call) (c : NetConnection)
    → 0 < readable_bytes c.write_buffer
    → Quiet c.write_buffer (perform junk k c)
unfolding perform run_task
perform-Quiet junk (event revents answer) c busy = handle_event-Quiet junk revents answer c
perform-Quiet junk (call_send in_loop answer bytes) c busy =
    send-Quiet in_loop junk answer c bytes busy
perform-Quiet junk (call_force_close in_loop) c busy = force_close-Quiet in_loop c
perform-Quiet junk (call_shutdown in_loop) c busy = shutdown-Quiet in_loop c
perform-Quiet junk call_established c busy = conn_established-Quiet c
perform-Quiet junk (queued answer (send_task bytes)) c busy =
    send_in_reactor-Quiet junk answer c bytes busy
perform-Quiet junk (queued answer close_task) c busy = handle_close-Quiet c
perform-Quiet junk (queued answer shutdown_task) c busy = shutdown_in_reactor-Quiet c

run-Quiet :
    (junk : ℕ) (ks : List Call) (c : NetConnection)
    → 0 < readable_bytes c.write_buffer
    → Quiet c.write_buffer (run junk ks c)
unfolding run
run-Quiet junk [] c busy = (refl, refl)
run-Quiet junk (k ∷ ks) c busy =
    Quiet-then c.write_buffer (perform junk k c) (run junk ks) (perform-Quiet junk k c busy)
      (λ d e. run-Quiet junk ks d (rw e busy))

-- What is once in the write buffer stays there: whatever is called on the connection, whatever its
-- descriptor is ready for, and whatever the system answers, nothing more is written to the socket and
-- the write buffer does not change. The write callback is not `handleWrite`, and `sendInReactor` writes
-- only with an empty buffer.
pub stranded :
    (junk : ℕ) (ks : List Call) (c d : NetConnection) (es : List Effect)
    → 0 < readable_bytes c.write_buffer
    → run junk ks c ≡ ok (es, d)
    → (wired es ≡ []) × (d.write_buffer ≡ c.write_buffer)
stranded junk ks c d es busy e = subst (Quiet c.write_buffer) e (run-Quiet junk ks c busy)
