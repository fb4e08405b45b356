-- ===== src/NetClient.antt =====
-- `NetClient` of net/NetClient.cpp, and with it the whole client: its connector, its connection and the
-- heartbeat and callbacks of `WSNet` (websocket/WSNet.cpp). The user and the callbacks of timers, which
-- base/Timer.cpp runs in threads of their own, are not in the thread of the loop: what they start goes
-- through its queue. A callback of a timer is one step. A `NetConnection*` is the descriptor of its
-- socket.
pub mod Phases
pub mod Reconnect
mod Tests
use websocket_cpp.Base.{
  ℕ, zero, suc, ◌+◌, List, [], ◌∷◌, ◌++◌, true, false, Option, none, some, Result, ok, ◌>>=◌,
}
use websocket_cpp.Protocol.Head.{WsHead}
use websocket_cpp.Protocol.Decode.{WsProtocol}
use websocket_cpp.Heartbeat.{
  Action, send, connect, HeartState, wait_ping, timer_handle, process_pong,
}
use websocket_cpp.Connector.{
  Connector, new_connector, Effect, close_fd, new_handler, delete_handler, new_connection,
  cancel_timer, start_in_loop,
}
use websocket_cpp.Connector.Runs
use websocket_cpp.WsNet.{WsNet, on_connected}

pub record NetClient : Type 0 where
  pub connector : Connector
  pub conn : Option ℕ
  pub conn_index : ℕ

abbrev pub new_net_client : NetClient
new_net_client = record { connector = new_connector; conn = none; conn_index = 1 }

-- `establishConnection`, up to `connEstablished`: the connection that is deleted, if there is one
pub establish_connection : ℕ → NetClient → Option ℕ × NetClient
establish_connection sockfd n =
    (n.conn, record n { conn = some sockfd; conn_index = n.conn_index + 1 })

-- `starts` counts the calls of `startInLoop` in the queue of the loop.
pub record Client : Type 0 where
  pub net : NetClient
  pub ws : WsNet
  pub starts : ℕ

abbrev pub new_client : WsProtocol → Client
new_client p = record {
  net = new_net_client;
  ws = record { proto = p; heart = wait_ping; connected = false; timers = [] };
  starts = 0;
}

-- What the client sends, in order, and the connections that it deletes
pub data Output : Type 0 where
  act : Action → Output
  deleted : ℕ → Output

abbrev pub Outcome : Type 0
Outcome = Result (List Output × Client)

abbrev pub acts_of : List Action → List Output
acts_of [] = []
acts_of (a ∷ rest) = act a ∷ acts_of rest

abbrev pub deletes : Option ℕ → List Output
deletes none = []
deletes (some fd) = deleted fd ∷ []

-- `establishConnection` at the time `now`: `connEstablished` calls back `onConnected`.
pub establish : WsHead → ℕ → ℕ → Client → Outcome
establish stack now sockfd c = do
  let r = establish_connection sockfd c.net
  (acts, w) ← on_connected stack now true c.ws
  ok (deletes r.0 ++ acts_of acts, record c { net = r.1; ws = w })

-- The calls of `newConnCreateCallback_` among what the connector does
pub establish_all : WsHead → ℕ → List Effect → Client → Outcome
establish_all stack now [] c = ok ([], c)
establish_all stack now (new_connection fd ∷ es) c = do
  (acts, d) ← establish stack now fd c
  (more, r) ← establish_all stack now es d
  ok (acts ++ more, r)
establish_all stack now (close_fd fd ∷ es) c = establish_all stack now es c
establish_all stack now (new_handler fd ∷ es) c = establish_all stack now es c
establish_all stack now (delete_handler fd ∷ es) c = establish_all stack now es c
establish_all stack now (cancel_timer tm ∷ es) c = establish_all stack now es c

-- The client with another connector
abbrev pub with_connector : Connector → Client → Client
with_connector k c = record c { net = record c.net { connector = k } }

-- `NetClient::connect`, from another thread than that of the loop
abbrev pub net_connect : Client → Client
net_connect c = record c { starts = c.starts + 1 }

-- The loop calls a `startInLoop` that is in its queue, with the socket and the answer of `::connect`.
pub start_queued : ℕ → ℕ → ℕ → Client → Outcome
start_queued sockfd error zero c = ok ([], c)
start_queued sockfd error (suc n) c = do
  (es, k) ← start_in_loop sockfd error c.net.connector
  ok ([], with_connector k (record c { starts = n }))

-- What the timer's function of the heartbeat does, in order
pub perform : List Action → Client → List Output × Client
perform [] c = ([], c)
perform (send b ∷ acts) c = let (more, r) = perform acts c in (act (send b) ∷ more, r)
perform (connect ∷ acts) c = perform acts (net_connect c)

-- What happens to a client: the user connects, the loop calls `startInLoop`, the socket is ready to
-- write, a timer of the heartbeat fires, a pong arrives, or the connection is closed.
pub data Event : Type 0 where
  connects : Event
  loop_start : (sockfd : ℕ) → (error : ℕ) → Event
  write_ready : (error : ℕ) → (now : ℕ) → Event
  timer : Event
  pong : Event
  closed : (now : ℕ) → Event

-- A timer of the heartbeat fires; the state is set after `connect` has returned.
pub fire : WsHead → Client → Outcome
fire stack c = do
  (acts, s) ← timer_handle stack c.ws.heart
  let r = perform acts c
  ok (r.0, record r.1 { ws = record r.1.ws { heart = s } })

unfoldable pub step : WsHead → Event → Client → Outcome
step stack connects c = ok ([], net_connect c)
step stack (loop_start sockfd error) c = start_queued sockfd error c.starts c
step stack (write_ready error now) c = do
  (es, k) ← Runs.step (Runs.write_ready error) c.net.connector
  establish_all stack now es (with_connector k c)
step stack timer c = elim c.ws.timers [ [] ↦ ok ([], c) | t ∷ ts ↦ fire stack c ]
step stack pong c = elim c.net.conn [
  | none ↦ ok ([], c)
  | some fd ↦ ok ([], record c { ws = record c.ws { heart = process_pong c.ws.heart } })
]
step stack (closed now) c = elim c.net.conn [
  | none ↦ ok ([], c)
  | some fd ↦ do
    (acts, w) ← on_connected stack now false c.ws
    ok (acts_of acts, record c { ws = w })
]

unfoldable pub run : WsHead → List Event → Client → Outcome
run stack [] c = ok ([], c)
run stack (e ∷ es) c = do
  (acts, d) ← step stack e c
  (more, r) ← run stack es d
  ok (acts ++ more, r)
