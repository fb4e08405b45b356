-- ===== src/NetConnection.antt =====
-- `NetConnection` of net/NetConnection.h and net/NetConnection.cpp. What the system calls answer is an
-- argument of the operation that makes them; what a connection does to the outside is a list of effects,
-- in order. All its callbacks are set.
pub mod Sending
pub mod Draining
pub mod Stranded
pub mod Runs
pub mod Closing
pub mod Queued
mod Tests
use websocket_cpp.Base.{
  ℕ, zero, suc, ◌+◌, ◌-◌, ◌^◌, List, [], ◌∷◌, ◌++◌, Bool, true, false, not, ◌&&◌, bit_and, length,
  take, drop, ltb, ◌==◌, if◌then◌else◌, Option, none, some, Result, ok, err, aborted, faulted,
  ◌>>=◌,
}
use websocket_cpp.Buffer.{Buffer, readable_bytes, reset, retrieve, write, readfd, new_buffer}
use websocket_cpp.Buffer.Contents.{contents}
use websocket_cpp.Poller.{
  EventHandler, Callback, on_close, on_error, on_read, on_write, change_events, enable_read,
  enable_write, disable_write, hand_event, pollout, has_bits,
}

pub data NetState : Type 0 where
  disconnected connecting connected : NetState

abbrev pub is_connected : NetState → Bool
is_connected disconnected = false
is_connected connecting = false
is_connected connected = true

-- What `write` answers: the number of bytes taken, or -1 with an error number. `broken` is EPIPE and
-- ECONNRESET.
pub data WriteResult : Type 0 where
  wrote : ℕ → WriteResult
  would_block broken failed : WriteResult

-- The functions that are bound for `runInLoop`.
pub data Task : Type 0 where
  send_task : List ℕ → Task
  close_task shutdown_task : Task

-- Bytes that the socket took, calls of the callbacks, `shutdownWrite`, and functions put in the queue of
-- the loop. `msgRecvFunc_` is given the buffer: here, what it holds.
pub data Effect : Type 0 where
  wire : List ℕ → Effect
  conn_callback : Bool → Effect
  msg_recv : List ℕ → Effect
  write_complete close_callback shutdown_write : Effect
  queue : Task → Effect

-- `event_` is none when it is NULL.
pub record NetConnection : Type 0 where
  pub state : NetState
  pub event : Option EventHandler
  pub read_buffer : Buffer
  pub write_buffer : Buffer

-- The constructor, for the descriptor `sockfd`
pub new_connection : ℕ → ℕ → NetConnection
new_connection junk sockfd = record {
  state = disconnected;
  event = some (record { fd = sockfd; events = 0 });
  read_buffer = new_buffer junk;
  write_buffer = new_buffer junk;
}

abbrev pub Outcome : Type 0
Outcome = Result (List Effect × NetConnection)

-- `event_->fd()`, a read of what `event_` points to
abbrev pub handler : NetConnection → Result EventHandler
handler c = elim c.event [ none ↦ err faulted | some ev ↦ ok ev ]

abbrev pub is_writeable : EventHandler → Bool
is_writeable ev = has_bits ev.events pollout

pub handle_close : NetConnection → Outcome
handle_close c = do
  ev ← handler c
  ok (conn_callback false ∷ close_callback ∷ [], record c { state = disconnected; event = none })

pub handle_error : NetConnection → Outcome
handle_error c = do ev ← handler c; ok ([], c)

-- The three branches of `handleRead` on what `readfd` returns, none for -1
pub handle_received : NetConnection → Option ℕ → Outcome
handle_received c none = handle_error c
handle_received c (some n) =
    if ltb 0 n then ok (msg_recv (contents c.read_buffer) ∷ [], c) else handle_close c

-- `handleRead`; `answer` is what waits for `readv`, none for an error.
pub handle_read : ℕ → Option (List ℕ) → NetConnection → Outcome
handle_read junk answer c = do
  ev ← handler c
  (n, rb) ← readfd junk (reset c.read_buffer) answer
  handle_received (record c { read_buffer = rb }) n

-- `handleWrite`; `answer` is that of `write` for all readable bytes.
pub handle_write : WriteResult → NetConnection → Outcome
handle_write would_block c = err aborted
handle_write broken c = err aborted
handle_write failed c = err aborted
handle_write (wrote n) c =
    if ltb 0 n
    then (do
      ev ← handler c
      wb ← retrieve c.write_buffer n
      ok (
          if readable_bytes wb == 0
          then (
            wire (take n (contents c.write_buffer)) ∷ write_complete ∷ [],
            record c { write_buffer = wb; event = some (change_events disable_write ev) },
          )
          else (wire (take n (contents c.write_buffer)) ∷ [], record c { write_buffer = wb })))
    else err aborted

-- The end of `sendInReactor`: what remains goes to the write buffer, and the socket is watched for being
-- writeable.
pub store_remainder : ℕ → NetConnection → List ℕ → Result NetConnection
store_remainder junk c rest =
    if ltb 0 (length rest)
    then (do
      wb ← write junk c.write_buffer rest
      ev ← handler c
      ok (record c {
        write_buffer = wb;
        event = some (if is_writeable ev then ev else change_events enable_write ev);
      }))
    else ok c

-- `sendInReactor` of data on a connection that is not disconnected. Only in the first case is `remain`
-- set: everywhere else it stays 0.
pub send_connected : ℕ → WriteResult → NetConnection → List ℕ → Outcome
send_connected junk answer c bytes =
    if readable_bytes c.write_buffer == 0
    then (do
      ev ← handler c
      elim answer [
        | would_block ↦ ok ([], c)
        | broken ↦ ok ([], c)
        | failed ↦ ok ([], c)
        | wrote n ↦ do
          d ← store_remainder junk c (drop n bytes)
          ok (wire (take n bytes) ∷ (if length bytes - n == 0 then write_complete ∷ [] else []), d)
      ])
    else ok ([], c)

pub send_in_reactor : ℕ → WriteResult → NetConnection → List ℕ → Outcome
send_in_reactor junk answer c bytes = elim c.state [
  | disconnected ↦ ok ([], c)
  | connecting ↦ send_connected junk answer c bytes
  | connected ↦ send_connected junk answer c bytes
]

-- `send`, from the thread of the loop or from another one
pub send : Bool → ℕ → WriteResult → NetConnection → List ℕ → Outcome
send in_loop junk answer c bytes =
    let now = send_in_reactor junk answer c bytes in
    if is_connected c.state
    then if in_loop then now else ok (queue (send_task bytes) ∷ [], c)
    else ok ([], c)

pub force_close : Bool → NetConnection → Outcome
force_close in_loop c =
    let d : NetConnection = record c { state = disconnected } in
    if is_connected c.state
    then if in_loop then handle_close d else ok (queue close_task ∷ [], d)
    else ok ([], c)

pub conn_established : NetConnection → Outcome
conn_established c = do
  ev ← handler c
  ok (
    conn_callback true ∷ [],
    record c { state = connected; event = some (change_events enable_read ev) },
  )

pub shutdown_in_reactor : NetConnection → Outcome
shutdown_in_reactor c = do
  ev ← handler c
  ok (if is_writeable ev then ([], c) else (shutdown_write ∷ [], c))

pub shutdown : Bool → NetConnection → Outcome
shutdown in_loop c =
    if is_connected c.state
    then if in_loop then shutdown_in_reactor c else ok (queue shutdown_task ∷ [], c)
    else ok ([], c)

-- What the loop runs later.
pub run_task : ℕ → WriteResult → Task → NetConnection → Outcome
run_task junk answer (send_task bytes) c = send_in_reactor junk answer c bytes
run_task junk answer close_task c = handle_close c
run_task junk answer shutdown_task c = shutdown_in_reactor c

-- The callbacks as the constructor sets them: `setWriteCallback` three times, so that `handleError` is
-- left, and none for close and error.
pub on_callback : ℕ → Option (List ℕ) → Callback → NetConnection → Outcome
on_callback junk answer on_close c = ok ([], c)
on_callback junk answer on_error c = ok ([], c)
on_callback junk answer on_read c = handle_read junk answer c
on_callback junk answer on_write c = handle_error c

-- `EventHandler::handEvent` of the connection's handler: after each callback it reads `revents_`, a
-- member of the handler.
pub call_back : ℕ → Option (List ℕ) → Callback → NetConnection → Outcome
call_back junk answer cb c = do (now, d) ← on_callback junk answer cb c; ev ← handler d; ok (now, d)

pub call_backs : ℕ → Option (List ℕ) → List Callback → NetConnection → Outcome
call_backs junk answer [] c = ok ([], c)
call_backs junk answer (cb ∷ cbs) c = do
  (now, d) ← call_back junk answer cb c
  (later, e) ← call_backs junk answer cbs d
  ok (now ++ later, e)

pub handle_event : ℕ → ℕ → Option (List ℕ) → NetConnection → Outcome
handle_event junk revents answer c = call_backs junk answer (hand_event revents) c
