-- ===== src/WsNet.antt =====
-- The client's side of `WSNet` of websocket/WSNet.cpp: what it does when the connection changes and when
-- bytes arrive. `client_` is there, and the connection is not NULL.
pub mod Messages
pub mod Url
pub mod Send
mod Tests
use websocket_cpp.Base.{
  ℕ, zero, suc, ◌+◌, List, [], ◌∷◌, ◌++◌, map, Bool, true, false, ◌&&◌, length, take, ◌==◌,
  if◌then◌else◌, Result, ok, ◌>>=◌,
}
use websocket_cpp.Protocol.Head.{WsHead}
use websocket_cpp.Protocol.Decode.{WsProtocol, Decoded, decode_frame}
use websocket_cpp.TimerQueue.{Timer}
use websocket_cpp.Heartbeat.{
  HeartState, wait_ping, wait_pong, reconnect, to_be_closed, Action, send_heartbeat, process_pong,
  start, same_bytes, pong_text,
}

-- `timers` are the heartbeat timers that were started, the last one first.
pub record WsNet : Type 0 where
  pub proto : WsProtocol
  pub heart : HeartState
  pub connected : Bool
  pub timers : List Timer

-- `heartbeat_->start(client_)` if the state is `eWaitPing`
unfoldable pub start_heartbeat : WsHead → ℕ → WsNet → Result (List Action × WsNet)
start_heartbeat stack now n = elim n.heart [
  | wait_ping ↦ do
    (acts, s, t) ← start stack now
    ok (acts, record n { heart = s; timers = t ∷ n.timers })
  | wait_pong ↦ ok ([], n)
  | reconnect ↦ ok ([], n)
  | to_be_closed ↦ ok ([], n)
]

-- `onConnected` at the time `now`
unfoldable pub on_connected : WsHead → ℕ → Bool → WsNet → Result (List Action × WsNet)
on_connected stack now is_connected n = elim n.heart [
  | reconnect ↦ do
    first ← send_heartbeat stack
    (acts, r) ← start_heartbeat stack now (record n { connected = is_connected; heart = wait_ping })
    ok (first ++ acts, r)
  | wait_ping ↦ start_heartbeat stack now (record n { connected = is_connected })
  | wait_pong ↦ start_heartbeat stack now (record n { connected = is_connected })
  | to_be_closed ↦ start_heartbeat stack now (record n { connected = is_connected })
]

-- `decFrameCallback`: what `msgRecvCallback_` is given, and the state of the heartbeat. `len` is the
-- length of the data.
pub dec_frame_callback : HeartState → List ℕ → List (List ℕ) × HeartState
dec_frame_callback s text =
    if length text == length pong_text && same_bytes text pong_text
    then ([], process_pong s)
    else (text ∷ [], s)

pub dec_frame_callbacks : HeartState → List (List ℕ) → List (List ℕ) × HeartState
dec_frame_callbacks s [] = ([], s)
dec_frame_callbacks s (text ∷ texts) =
    let (here, t) = dec_frame_callback s text in
    let (later, u) = dec_frame_callbacks t texts in (here ++ later, u)

-- `onConnMessage` with the bytes that the buffer gave, which `c_str()` ends with a 0: the messages for `msgRecvCallback_`, how the
-- decoder ended, and the new state.
pub on_conn_message : ℕ → WsNet → List ℕ → List (List ℕ) × Decoded × WsNet
on_conn_message fuel n text =
    let d = decode_frame fuel n.proto (text ++ (0 ∷ [])) (length text) in
    let (messages, s) = dec_frame_callbacks n.heart d.calls in
    (messages, d, record n { proto = d.proto; heart = s })
