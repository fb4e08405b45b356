-- ===== src/Heartbeat.antt =====
-- `HeartbeatSender` and `HeartbeatRecv` of websocket/Heartbeat.cpp. What goes to a connection is a list
-- of actions. A `NetConnection*` is a number.
pub mod Sender
pub mod Receiver
pub mod Exchange
mod Tests
use websocket_cpp.Base.{
  ℕ, ◌+◌, ◌-◌, ◌*◌, ◌/◌, ◌%◌, ◌^◌, List, [], ◌∷◌, ◌++◌, map, Bool, true, false, ◌&&◌, length, take,
  ltb, ◌==◌, if◌then◌else◌, some, Result, ok, err, faulted, ◌>>=◌,
}
use websocket_cpp.Protocol.Head.{WsHead, ping_frame, pong_frame}
use websocket_cpp.Protocol.Encode.{encode_frame}
use websocket_cpp.TimerQueue.{Timer, microseconds_per_second, add_seconds}

pub data HeartState : Type 0 where
  wait_ping wait_pong reconnect to_be_closed : HeartState

-- `send` of bytes, and `NetClient::connect`.
pub data Action : Type 0 where
  send : List ℕ → Action
  connect : Action

-- `HeartTimer::nextTimestamp` at the time `now`
abbrev pub next_timestamp : HeartState → ℕ → ℕ
next_timestamp wait_ping now = add_seconds now (10 * microseconds_per_second)
next_timestamp wait_pong now = add_seconds now (5 * microseconds_per_second)
next_timestamp reconnect now = add_seconds now (8 * microseconds_per_second)
next_timestamp to_be_closed now = now

-- The texts "PING" and "PONG".
abbrev pub ping_text : List ℕ
ping_text = 80 ∷ 73 ∷ 78 ∷ 71 ∷ []

abbrev pub pong_text : List ℕ
pong_text = 80 ∷ 79 ∷ 78 ∷ 71 ∷ []

-- `sendHeartbeat`; `stack` is what the uninitialised header of `encodeFrame` holds.
pub send_heartbeat : WsHead → Result (List Action)
send_heartbeat stack = do
  e ← encode_frame stack ping_text (length ping_text) ping_frame
  ok (map send e.frames)

pub timer_handle : WsHead → HeartState → Result (List Action × HeartState)
timer_handle stack wait_ping = do acts ← send_heartbeat stack; ok (acts, wait_pong)
timer_handle stack wait_pong = ok (connect ∷ [], reconnect)
timer_handle stack reconnect = ok ([], reconnect)
timer_handle stack to_be_closed = ok ([], to_be_closed)

abbrev pub process_pong : HeartState → HeartState
process_pong s = wait_ping

-- The timer that `start` arms. `compute_` reads the state of the sender through a pointer, so the timer
-- is given with the state that it is read in. The `true` of the call is its interval.
pub heart_timer : HeartState → ℕ → Timer
heart_timer s at = record {
  expiration = at;
  repeat = true;
  compute = some (next_timestamp s);
  interval = 1 * microseconds_per_second;
}

-- `start` at the time `now`
pub start : WsHead → ℕ → Result (List Action × HeartState × Timer)
start stack now = do
  acts ← send_heartbeat stack
  ok (acts, wait_pong, heart_timer wait_pong (next_timestamp wait_pong now))

-- `ConnHeartStruct`: the time in seconds, an `unsigned int`.
pub record ConnHeart : Type 0 where
  pub conn : ℕ
  pub seconds : ℕ

abbrev pub same_bytes : List ℕ → List ℕ → Bool
same_bytes [] [] = true
same_bytes [] (y ∷ ys) = false
same_bytes (x ∷ xs) [] = false
same_bytes (x ∷ xs) (y ∷ ys) = x == y && same_bytes xs ys

pub process_ping : WsHead → List ℕ → ℕ → Result (List Action × ℕ)
process_ping stack text len =
    if len == length ping_text && same_bytes (take len text) ping_text
    then (do
      e ← encode_frame stack pong_text (length pong_text) pong_frame
      ok (map send e.frames, 1))
    else ok ([], 0)

-- The time as `updateConn` keeps it.
abbrev pub now_seconds : ℕ → ℕ
now_seconds now = now / microseconds_per_second % 2 ^ 32

-- The list after `updateConn`
pub touch : ℕ → ℕ → List ConnHeart → List ConnHeart
touch now conn [] = record { conn = conn; seconds = now_seconds now } ∷ []
touch now conn (x ∷ xs) =
    if x.conn == conn then record x { seconds = now_seconds now } ∷ xs else x ∷ touch now conn xs

pub update_conn :
    WsHead → ℕ → ℕ → List ℕ → ℕ → List ConnHeart → Result (List Action × ℕ × List ConnHeart)
update_conn stack now conn text len list = do
  (acts, ret) ← process_ping stack text len
  ok (acts, ret, touch now conn list)

abbrev pub timeout : ℕ
timeout = 10 + 5

abbrev pub is_stale : ℕ → ConnHeart → Bool
is_stale now x = ltb timeout (now / microseconds_per_second - x.seconds)

-- The loop of `timerCallback`: which connections are closed, and the list afterwards. After an erasure
-- the iterator steps back, which is not defined at `begin()`: `first` says whether it is there.
pub expire_conns : ℕ → Bool → List ConnHeart → Result (List ℕ × List ConnHeart)
expire_conns now first [] = ok ([], [])
expire_conns now first (x ∷ xs) =
    let after = expire_conns now false xs in
    if is_stale now x
    then (if first then err faulted else (do (closed, rest) ← after; ok (x.conn ∷ closed, rest)))
    else (do (closed, rest) ← after; ok (closed, x ∷ rest))

pub timer_callback : ℕ → List ConnHeart → Result (List ℕ × List ConnHeart)
timer_callback now list = expire_conns now true list
