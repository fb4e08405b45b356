-- ===== src/WsNet/Messages.antt =====
-- What the client does on a connection, and with messages.
use websocket_cpp.Base.{
  ◌++◌, ℕ, ◌+◌, ◌≡◌, ◌≢◌, inl, inr, refl, List, [], ◌∷◌, Bool, false, ◌&&◌, ◌||◌, length, ◌==◌,
  if◌then◌else◌, ok, arith, Bool-cases,
}
use websocket_cpp.Protocol.Head.{WsHead}
use websocket_cpp.TimerQueue.{Timer}
use websocket_cpp.Protocol.Decode.{WsProtocol, Decoded, decode_frame}
use websocket_cpp.Heartbeat.{
  HeartState, wait_ping, wait_pong, reconnect, to_be_closed, Action, send, same_bytes, pong_text,
  heart_timer, next_timestamp,
}
use websocket_cpp.Heartbeat.Sender.{sends, ping_bytes, send_heartbeat_lem, start_lem}
use websocket_cpp.WsNet.{
  on_conn_message, WsNet, start_heartbeat, on_connected, dec_frame_callback, dec_frame_callbacks,
}

abbrev pub ping_count : HeartState → ℕ
ping_count reconnect = 2
ping_count wait_ping = 1
ping_count wait_pong = 0
ping_count to_be_closed = 0

abbrev pub timer_count : HeartState → ℕ
timer_count reconnect = 1
timer_count wait_ping = 1
timer_count wait_pong = 0
timer_count to_be_closed = 0

-- The client after the heartbeat was started.
abbrev started : ℕ → WsNet → WsNet
started now n = record n {
  heart = wait_pong;
  timers = heart_timer wait_pong (next_timestamp wait_pong now) ∷ n.timers;
}

start_wait_ping :
    (stack : WsHead) (now : ℕ) (n : WsNet)
    → n.heart ≡ wait_ping
    → start_heartbeat stack now n ≡ ok (send (ping_bytes stack) ∷ [], started now n)
unfolding start_heartbeat
start_wait_ping stack now n h = rw (start_heartbeat, h, start_lem stack now) refl

abbrev pub Connected : WsHead → ℕ → Bool → WsNet → Type 0
Connected stack now c n =
    (acts : List Action) × (r : WsNet) × (on_connected stack now c n ≡ ok (acts, r))
    × (sends acts ≡ ping_count n.heart)
    × (length r.timers ≡ length n.timers + timer_count n.heart)
    × (r.connected ≡ c)

-- `onConnected` never fails. Waiting to ping it sends one ping and starts a timer; after a reconnect it
-- sends two pings and starts another timer beside those that run; else it does neither.
pub on_connected_lem : (stack : WsHead) (now : ℕ) (c : Bool) (n : WsNet) → Connected stack now c n
unfolding on_connected start_heartbeat
on_connected_lem stack now c n = go n.proto n.heart n.connected n.timers
  where
    go :
        (p : WsProtocol) (s : HeartState) (b : Bool) (ts : List Timer)
        → Connected stack now c (record { proto = p; heart = s; connected = b; timers = ts })
    go p wait_ping b ts =
        let n : WsNet = record { proto = p; heart = wait_ping; connected = c; timers = ts } in
        (
          send (ping_bytes stack) ∷ [],
          started now n,
          start_wait_ping stack now n refl,
          refl,
          omega arith,
          refl,
        )
    go p wait_pong b ts =
        let n : WsNet = record { proto = p; heart = wait_pong; connected = c; timers = ts } in
        ([], n, refl, refl, omega arith, refl)
    go p reconnect b ts =
        let n : WsNet = record { proto = p; heart = wait_ping; connected = c; timers = ts } in
        (
          send (ping_bytes stack) ∷ send (ping_bytes stack) ∷ [],
          started now n,
          rw (on_connected, send_heartbeat_lem stack, start_wait_ping stack now n refl) refl,
          refl,
          omega arith,
          refl,
        )
    go p to_be_closed b ts =
        let n : WsNet = record { proto = p; heart = to_be_closed; connected = c; timers = ts } in
        ([], n, refl, refl, omega arith, refl)

-- A client whose heartbeat is not to be closed waits for a pong after `onConnected`.
pub on_connected_beats :
    (stack : WsHead) (now : ℕ) (c : Bool) (n : WsNet)
    → n.heart ≢ to_be_closed
    → (acts : List Action) × (r : WsNet) × (on_connected stack now c n ≡ ok (acts, r))
      × (r.heart ≡ wait_pong)
      × (length r.timers ≡ length n.timers + timer_count n.heart)
unfolding on_connected start_heartbeat
on_connected_beats stack now c n beats = go n.proto n.heart n.connected n.timers beats
  where
    go :
        (p : WsProtocol) (s : HeartState) (b : Bool) (ts : List Timer)
        → s ≢ to_be_closed
        → let m : WsNet = record { proto = p; heart = s; connected = b; timers = ts } in
          (acts : List Action) × (r : WsNet) × (on_connected stack now c m ≡ ok (acts, r))
          × (r.heart ≡ wait_pong)
          × (length r.timers ≡ length ts + timer_count s)
    go p wait_ping b ts h =
        let n : WsNet = record { proto = p; heart = wait_ping; connected = c; timers = ts } in
        (_, started now n, start_wait_ping stack now n refl, refl, omega arith)
    go p wait_pong b ts h =
        let n : WsNet = record { proto = p; heart = wait_pong; connected = c; timers = ts } in
        ([], n, refl, refl, omega arith)
    go p reconnect b ts h =
        let n : WsNet = record { proto = p; heart = wait_ping; connected = c; timers = ts } in
        (
          send (ping_bytes stack) ∷ send (ping_bytes stack) ∷ [],
          started now n,
          rw (on_connected, send_heartbeat_lem stack, start_wait_ping stack now n refl) refl,
          refl,
          omega arith,
        )
    go p to_be_closed b ts h = absurd (h refl)

-- The messages that are no "PONG", in order, and whether there is one.
abbrev pub is_pong : List ℕ → Bool
is_pong text = length text == length pong_text && same_bytes text pong_text

abbrev pub other_messages : List (List ℕ) → List (List ℕ)
other_messages [] = []
other_messages (t ∷ ts) = let rest = other_messages ts in if is_pong t then rest else t ∷ rest

abbrev pub has_pong : List (List ℕ) → Bool
has_pong [] = false
has_pong (t ∷ ts) = is_pong t || has_pong ts

-- Of the messages that `decodeFrame` delivers, the application gets those that are not "PONG", in their
-- order; one "PONG" among them, be it a frame of any type, puts the heartbeat back to waiting to ping,
-- and without one it stays as it is.
pub dec_frame_callbacks_lem :
    (s : HeartState) (texts : List (List ℕ))
    → dec_frame_callbacks s texts
      ≡ (other_messages texts, (if has_pong texts then wait_ping else s))
unfolding dec_frame_callbacks dec_frame_callback
dec_frame_callbacks_lem s [] = refl
dec_frame_callbacks_lem s (t ∷ ts) = elim (Bool-cases (is_pong t)) [
  | inl y ↦ elim (Bool-cases (has_pong ts)) [
    | inl z ↦ rw (dec_frame_callback, y, dec_frame_callbacks_lem wait_ping ts, z) refl
    | inr z ↦ rw (dec_frame_callback, y, dec_frame_callbacks_lem wait_ping ts, z) refl
  ]
  | inr n ↦ rw (dec_frame_callback, n, dec_frame_callbacks_lem s ts) refl
]

pub on_conn_message_eq :
    (f : ℕ) (n : WsNet) (wire : List ℕ) (d : Decoded)
    → decode_frame f n.proto (wire ++ (0 ∷ [])) (length wire) ≡ d
    → on_conn_message f n wire ≡ (
      other_messages d.calls,
      d,
      record n { proto = d.proto; heart = if has_pong d.calls then wait_ping else n.heart },
    )
unfolding on_conn_message
on_conn_message_eq f n wire d e =
    rw (on_conn_message, e, dec_frame_callbacks_lem n.heart d.calls) refl
