-- ===== src/Connector.antt =====
-- `Connector` of net/Connector.cpp. It runs in the thread of its loop, where `runInLoop` calls the function
-- at once. What the system calls answer is an argument, 0 or an `errno`; what the connector does to the
-- outside is a list of effects, in order.
pub mod Runs
pub mod Attempts
mod Tests
use websocket_cpp.Base.{
  ℕ, List, [], ◌∷◌, ◌++◌, Bool, true, false, ◌||◌, ◌==◌, if◌then◌else◌, Option, none, some, Result,
  ok, ◌>>=◌, ◌>>◌, assert,
}

pub data NetState : Type 0 where
  disconnected connected : NetState

abbrev pub is_disconnected : NetState → Bool
is_disconnected disconnected = true
is_disconnected connected = false

-- `event_` is the descriptor of the handler, `retry_timer` the `tm_` of `retryTimerId_`; none is NULL.
pub record Connector : Type 0 where
  pub state : NetState
  pub event : Option ℕ
  pub retry_timer : Option ℕ

abbrev pub new_connector : Connector
new_connector = record { state = disconnected; event = none; retry_timer = none }

-- `close(fd)`, a new `EventHandler` that waits to write, its deletion, a call of
-- `newConnCreateCallback_`, and `cancelTimer`.
pub data Effect : Type 0 where
  close_fd new_handler delete_handler new_connection cancel_timer : ℕ → Effect

abbrev pub Outcome : Type 0
Outcome = Result (List Effect × Connector)

-- `if (retryTimerId_.tm_ != NULL) loop_->cancelTimer(retryTimerId_);`
abbrev pub cancel : Option ℕ → List Effect
cancel none = []
cancel (some tm) = cancel_timer tm ∷ []

-- `close` of a descriptor; of -1, which is none, it does nothing.
abbrev pub close_socket : Option ℕ → List Effect
close_socket none = []
close_socket (some fd) = close_fd fd ∷ []

-- `retry`, which ends before the lines that arm the timer
unfoldable pub retry : Option ℕ → Connector → List Effect × Connector
retry sockfd c = (close_socket sockfd ++ cancel c.retry_timer, record c { state = disconnected })

-- `resetEvent` with `resetInLoop`: what it returns, none for -1, and what it does
unfoldable pub reset_event : Connector → Option ℕ × List Effect × Connector
reset_event c = elim c.event [
  | none ↦ (none, [], c)
  | some fd ↦ (some fd, delete_handler fd ∷ [], record c { event = none })
]

abbrev pub announce : Option ℕ → List Effect
announce none = []
announce (some fd) = new_connection fd ∷ []

-- `handleWrite`; `error` is what `getsockError` answers.
unfoldable pub handle_write : ℕ → Connector → List Effect × Connector
handle_write error c =
    let (sockfd, reset, d) = reset_event c in
    let (acts, failed) = retry sockfd d in
    if error == 0
    then (reset ++ (announce sockfd ++ cancel d.retry_timer), record d { state = connected })
    else (reset ++ acts, failed)

unfoldable pub connect_impl : ℕ → Connector → List Effect × Connector
connect_impl sockfd c = elim c.event [
  | none ↦ (new_handler sockfd ∷ [], record c { event = some sockfd })
  | some fd ↦ ([], c)
]

-- EINPROGRESS and EISCONN
abbrev pub goes_on : ℕ → Bool
goes_on error = error == 0 || error == 115 || error == 106

-- EAGAIN, EADDRINUSE, EADDRNOTAVAIL and ECONNREFUSED
abbrev pub may_retry : ℕ → Bool
may_retry error = error == 11 || error == 98 || error == 99 || error == 111

-- `connect` with the socket that was made and the answer of `::connect`
unfoldable pub connect : ℕ → ℕ → Connector → List Effect × Connector
connect sockfd error c =
    if goes_on error
    then connect_impl sockfd c
    else if may_retry error
    then retry (some sockfd) c
    else ([], c)

-- `startInLoop`
unfoldable pub start_in_loop : ℕ → ℕ → Connector → Outcome
start_in_loop sockfd error c = do assert (is_disconnected c.state); ok (connect sockfd error c)

pub stop : Connector → List Effect × Connector
stop c = let (sockfd, acts, d) = reset_event c in (acts, d)
