-- ===== src/Heartbeat/Sender.antt =====
-- The sender of heartbeats as a state machine.
use websocket_cpp.Base.{
  ℕ, zero, suc, ◌+◌, ◌≤◌, ◌≡◌, refl, List, [], ◌∷◌, ◌++◌, Result, ok, ◌>>=◌, length, take,
  replicate, arith,
}
use websocket_cpp.Heartbeat.{
  HeartState, wait_ping, wait_pong, reconnect, to_be_closed, Action, send, connect, send_heartbeat,
  timer_handle, process_pong, next_timestamp, heart_timer, start, ping_text,
}
use websocket_cpp.Protocol.Head.{WsHead, ping_frame}
use websocket_cpp.Protocol.Encode.{encode_frame, control_frame, ping_head}
use websocket_cpp.Protocol.Mask.{mask_from, compute_mask}

-- What happens to the sender: its timer fires, or a pong arrives.
pub data Event : Type 0 where
  fires pong : Event

-- The run of the sender over a list of events.
pub run : WsHead → HeartState → List Event → Result (List Action × HeartState)
run stack s [] = ok ([], s)
run stack s (pong ∷ es) = run stack (process_pong s) es
run stack s (fires ∷ es) = do
  (acts, t) ← timer_handle stack s
  (more, u) ← run stack t es
  ok (acts ++ more, u)

abbrev pub pongs : List Event → ℕ
pongs [] = 0
pongs (fires ∷ es) = pongs es
pongs (pong ∷ es) = suc (pongs es)

abbrev pub connects : List Action → ℕ
connects [] = 0
connects (send b ∷ acts) = connects acts
connects (connect ∷ acts) = suc (connects acts)

abbrev pub sends : List Action → ℕ
sends [] = 0
sends (send b ∷ acts) = suc (sends acts)
sends (connect ∷ acts) = sends acts

-- The ping that is sent.
abbrev pub ping_bytes : WsHead → List ℕ
ping_bytes stack =
    control_frame (ping_head stack ping_frame) (mask_from 0 ping_text) (length ping_text)

pub send_heartbeat_lem : (stack : WsHead) → send_heartbeat stack ≡ ok (send (ping_bytes stack) ∷ [])
unfolding send_heartbeat encode_frame compute_mask mask_from take
send_heartbeat_lem stack = refl

pub start_lem :
    (stack : WsHead) (now : ℕ)
    → start stack now
      ≡ ok (
        send (ping_bytes stack) ∷ [],
        wait_pong,
        heart_timer wait_pong (next_timestamp wait_pong now),
      )
unfolding start
start_lem stack now = rw (start, send_heartbeat_lem stack) refl

run-fires :
    (stack : WsHead) (s t u : HeartState) (es : List Event) (acts more : List Action)
    → timer_handle stack s ≡ ok (acts, t)
    → run stack t es ≡ ok (more, u)
    → run stack s (fires ∷ es) ≡ ok (acts ++ more, u)
unfolding run
run-fires stack s t u es acts more h r = rw (run, h, r) refl

pub fires_wait_ping :
    (stack : WsHead) → timer_handle stack wait_ping ≡ ok (send (ping_bytes stack) ∷ [], wait_pong)
unfolding timer_handle
fires_wait_ping stack = rw (timer_handle, send_heartbeat_lem stack) refl

pub fires_wait_pong : (stack : WsHead) → timer_handle stack wait_pong ≡ ok (connect ∷ [], reconnect)
unfolding timer_handle
fires_wait_pong stack = refl

pub fires_reconnect : (stack : WsHead) → timer_handle stack reconnect ≡ ok ([], reconnect)
unfolding timer_handle
fires_reconnect stack = refl

-- How many pings and how many calls of `connect` may still come before the next pong.
abbrev pub ping_credit : HeartState → ℕ
ping_credit wait_ping = 1
ping_credit wait_pong = 0
ping_credit reconnect = 0
ping_credit to_be_closed = 0

abbrev pub connect_credit : HeartState → ℕ
connect_credit wait_ping = 1
connect_credit wait_pong = 1
connect_credit reconnect = 0
connect_credit to_be_closed = 0

abbrev pub IsBounded : HeartState → List Event → List Action → Type 0
IsBounded s es acts =
    (sends acts ≤ pongs es + ping_credit s) × (connects acts ≤ pongs es + connect_credit s)

-- The sender never fails. From any state and over any sequence of timer runs and pongs, it sends at most
-- one ping, and calls `connect` at most once, for every pong and one time more.
pub run_lem :
    (stack : WsHead) (s : HeartState) (es : List Event)
    → (acts : List Action) × (t : HeartState) × (run stack s es ≡ ok (acts, t))
      × IsBounded s es acts
unfolding run timer_handle
run_lem stack s [] = ([], s, refl, (omega arith, omega arith))
run_lem stack s (pong ∷ es) =
    let (acts, t, e, b) = run_lem stack wait_ping es in (acts, t, e, (ground arith, ground arith))
run_lem stack wait_ping (fires ∷ es) =
    let (acts, t, e, b) = run_lem stack wait_pong es in
    (
      send (ping_bytes stack) ∷ acts,
      t,
      run-fires stack wait_ping wait_pong t es (send (ping_bytes stack) ∷ []) acts
          (fires_wait_ping stack) e,
      (omega (arith, b.0), omega (arith, b.1)),
    )
run_lem stack wait_pong (fires ∷ es) =
    let (acts, t, e, b) = run_lem stack reconnect es in
    (
      connect ∷ acts,
      t,
      run-fires stack wait_pong reconnect t es (connect ∷ []) acts refl e,
      (omega (arith, b.0), omega (arith, b.1)),
    )
run_lem stack reconnect (fires ∷ es) =
    let (acts, t, e, b) = run_lem stack reconnect es in
    (acts, t, run-fires stack reconnect reconnect t es [] acts refl e, b)
run_lem stack to_be_closed (fires ∷ es) =
    let (acts, t, e, b) = run_lem stack to_be_closed es in
    (acts, t, run-fires stack to_be_closed to_be_closed t es [] acts refl e, b)

reconnect_idle :
    (stack : WsHead) (n : ℕ) → run stack reconnect (replicate n fires) ≡ ok ([], reconnect)
unfolding run timer_handle replicate
reconnect_idle stack zero = refl
reconnect_idle stack (suc n) =
    run-fires stack reconnect reconnect reconnect (replicate n fires) [] [] refl
      (reconnect_idle stack n)

-- A peer that does not answer: the timer sends a ping, then calls `connect`, once, and after that does
-- nothing however often it runs.
pub silent_peer :
    (stack : WsHead) (n : ℕ)
    → run stack wait_ping (fires ∷ fires ∷ replicate n fires)
      ≡ ok (send (ping_bytes stack) ∷ connect ∷ [], reconnect)
unfolding timer_handle
silent_peer stack n =
    run-fires stack wait_ping wait_pong reconnect (fires ∷ replicate n fires)
      (send (ping_bytes stack) ∷ []) (connect ∷ []) (fires_wait_ping stack)
      (run-fires stack wait_pong reconnect reconnect (replicate n fires) (connect ∷ []) [] refl
        (reconnect_idle stack n))
