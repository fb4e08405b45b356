-- ===== src/NetClient/Reconnect.antt =====
-- What becomes of a client whose server does not answer.
use websocket_cpp.Base.{
  ℕ, suc, ◌+◌, ◌-◌, ◌<◌, ◌≡◌, ◌≢◌, refl, sym, ap, subst, ◌∙◌, List, [], ◌∷◌, false, length, ◌⊎◌,
  inl, inr, some, ok, err, aborted, >>=-eq-ok, arith,
}
use websocket_cpp.Protocol.Head.{WsHead}
use websocket_cpp.Protocol.Decode.{WsProtocol}
use websocket_cpp.Heartbeat.{
  Action, send, connect, HeartState, to_be_closed, wait_ping, wait_pong, reconnect, timer_handle,
  process_pong,
}
use websocket_cpp.Heartbeat.Sender.{ping_bytes, fires_wait_ping, fires_wait_pong, fires_reconnect}
use websocket_cpp.Connector.{connected}
use websocket_cpp.Connector.Runs
use websocket_cpp.WsNet.{WsNet, on_connected}
use websocket_cpp.WsNet.Messages.{on_connected_beats}
use websocket_cpp.NetClient.{
  Client, new_client, Output, act, acts_of, net_connect, perform, Event, connects, loop_start,
  start_queued, write_ready, timer, pong, closed, fire, step, run,
}
use websocket_cpp.NetClient.Phases.{
  Fresh, Live, IsValid, Ends, loop_start-Ends, write_ready-Ends, waits_pong, no_reconnect,
}

fire_eq : (stack : WsHead) (c : Client) → 0 < length c.ws.timers → step stack timer c ≡ fire stack c
unfolding step
fire_eq stack c h = ground arith

-- What the client is after the timer has sent a ping, and after it has called `connect`.
abbrev pinged : Client → Client
pinged c = record c { ws = record c.ws { heart = wait_pong } }

abbrev restarted : Client → Client
restarted c = record c { ws = record c.ws { heart = reconnect }; starts = c.starts + 1 }

fire_wait_ping :
    (stack : WsHead) (c : Client)
    → c.ws.heart ≡ wait_ping
    → fire stack c ≡ ok (act (send (ping_bytes stack)) ∷ [], pinged c)
unfolding fire perform
fire_wait_ping stack c h =
    let e : timer_handle stack c.ws.heart ≡ ok (send (ping_bytes stack) ∷ [], wait_pong) =
      ap (timer_handle stack) h ∙ fires_wait_ping stack in
    rw (fire, e) refl

fire_wait_pong :
    (stack : WsHead) (c : Client) → c.ws.heart ≡ wait_pong → fire stack c ≡ ok ([], restarted c)
unfolding fire perform
fire_wait_pong stack c h =
    let e : timer_handle stack c.ws.heart ≡ ok (connect ∷ [], reconnect) =
      ap (timer_handle stack) h ∙ fires_wait_pong stack in
    rw (fire, e) refl

fire_reconnect :
    (stack : WsHead) (c : Client)
    → c.ws.heart ≡ reconnect
    → fire stack c ≡ ok ([], record c { ws = record c.ws { heart = reconnect } })
unfolding fire perform
fire_reconnect stack c h =
    let e : timer_handle stack c.ws.heart ≡ ok ([], reconnect) =
      ap (timer_handle stack) h ∙ fires_reconnect stack in
    rw (fire, e) refl

-- A client that is live stays so with another heartbeat and more starts.
with_heart-IsValid :
    (c : Client) (w : WsNet) (n : ℕ)
    → IsValid c
    → Live c
    → w.heart ≢ to_be_closed
    → (w.heart ≢ reconnect) ⊎ (0 < n)
    → 0 < length w.timers
    → IsValid (record c { ws = w; starts = n })
with_heart-IsValid c w n v l b a t = record {
  connector = v.connector;
  phase =
      inr (record { on = l.on; beats = b; asked = a; timed = t; fd = l.fd; has_conn = l.has_conn });
}

fired-IsValid :
    (stack : WsHead) (c : Client) (s : HeartState)
    → c.ws.heart ≡ s
    → IsValid c
    → Live c
    → (acts : List Output) × (d : Client) × (fire stack c ≡ ok (acts, d)) × IsValid d
fired-IsValid stack c wait_ping h v l = (
  _,
  pinged c,
  fire_wait_ping stack c h,
  with_heart-IsValid c (record c.ws { heart = wait_pong }) c.starts v l (λ e. cc) (inl (λ e. cc))
      l.timed,
)
fired-IsValid stack c wait_pong h v l = (
  _,
  restarted c,
  fire_wait_pong stack c h,
  with_heart-IsValid c (record c.ws { heart = reconnect }) (c.starts + 1) v l (λ e. cc)
      (inr (omega arith)) l.timed,
)
fired-IsValid stack c reconnect h v l = (
  _,
  _,
  fire_reconnect stack c h,
  with_heart-IsValid c (record c.ws { heart = reconnect }) c.starts v l (λ e. cc)
      (inr (elim l.asked [ inl n ↦ absurd (n h) | inr p ↦ p ])) l.timed,
)
fired-IsValid stack c to_be_closed h v l = absurd (l.beats h)

Fresh-step :
    (stack : WsHead) (c : Client) (e : Event)
    → Fresh c
    → e ≢ connects
    → ((sockfd error : ℕ) → e ≢ loop_start sockfd error)
    → ((error now : ℕ) → e ≢ write_ready error now)
    → step stack e c ≡ ok ([], c)
unfolding step
Fresh-step stack c connects f k n m = absurd (k refl)
Fresh-step stack c (loop_start sockfd error) f k n m = absurd (n sockfd error refl)
Fresh-step stack c (write_ready error now) f k n m = absurd (m error now refl)
Fresh-step stack c timer f k n m = ground arith
Fresh-step stack c pong f k n m = ground arith
Fresh-step stack c (closed now) f k n m = ground arith

closed_eq :
    (stack : WsHead) (now : ℕ) (c : Client) (w : WsNet) (fd : ℕ) (acts : List Action)
    → c.net.conn ≡ some fd
    → on_connected stack now false c.ws ≡ ok (acts, w)
    → step stack (closed now) c ≡ ok (acts_of acts, record c { ws = w })
unfolding step
closed_eq stack now c w fd acts e a = ground arith

Live-step-Ends :
    (stack : WsHead) (e : Event) (c : Client) → IsValid c → Live c → Ends (step stack e c)
unfolding step
Live-step-Ends stack connects c v l = inr (
  [],
  net_connect c,
  refl,
  with_heart-IsValid c c.ws (c.starts + 1) v l l.beats (inr (omega arith)) l.timed,
)
Live-step-Ends stack (loop_start sockfd error) c v l =
    loop_start-Ends sockfd error c.starts c refl v
Live-step-Ends stack (write_ready error now) c v l = write_ready-Ends stack error now c v
Live-step-Ends stack timer c v l =
    let (acts, d, e, w) = fired-IsValid stack c c.ws.heart refl v l in
    inr (acts, d, fire_eq stack c l.timed ∙ e, w)
Live-step-Ends stack pong c v l =
    let w : WsNet = record c.ws { heart = process_pong c.ws.heart } in
    let e = l.has_conn in
    inr (
      [],
      record c { ws = w },
      ground arith,
      with_heart-IsValid c w c.starts v l (λ k. cc) (inl (λ k. cc)) l.timed,
    )
Live-step-Ends stack (closed now) c v l =
    let (acts, w, a, heart, timers) = on_connected_beats stack now false c.ws l.beats in
    inr (
      acts_of acts,
      record c { ws = w },
      closed_eq stack now c w l.fd acts l.has_conn a,
      with_heart-IsValid c w c.starts v l (waits_pong w.heart heart)
          (inl (no_reconnect w.heart heart)) (omega (arith, l.timed)),
    )

-- Every step ends in a valid client or aborts the process.
step-Ends : (stack : WsHead) (e : Event) (c : Client) → IsValid c → Ends (step stack e c)
unfolding step
step-Ends stack e c v = elim v.phase [
  | inr live ↦ Live-step-Ends stack e c v live
  | inl fresh ↦ go e fresh
]
  where
    go : (e : Event) → Fresh c → Ends (step stack e c)
    go connects f = inr (
      [],
      net_connect c,
      refl,
      record {
        connector = v.connector;
        phase = inl (record {
          off = f.off;
          resting = f.resting;
          untimed = f.untimed;
          unconnected = f.unconnected;
        });
      },
    )
    go (loop_start sockfd error) f = loop_start-Ends sockfd error c.starts c refl v
    go (write_ready error now) f = write_ready-Ends stack error now c v
    go timer f = inr ([], c, Fresh-step stack c timer f (λ q. cc) (λ a b q. cc) (λ a b q. cc), v)
    go pong f = inr ([], c, Fresh-step stack c pong f (λ q. cc) (λ a b q. cc) (λ a b q. cc), v)
    go (closed now) f =
        inr ([], c, Fresh-step stack c (closed now) f (λ q. cc) (λ a b q. cc) (λ a b q. cc), v)

run-IsValid :
    (stack : WsHead) (es : List Event) (c : Client) (acts : List Output) (d : Client)
    → IsValid c
    → run stack es c ≡ ok (acts, d)
    → IsValid d
unfolding run
run-IsValid stack [] c acts d v h = let same : c ≡ d = cc in subst IsValid same v
run-IsValid stack (e ∷ es) c acts d v h =
    let ((first, c2), h1, h2) = >>=-eq-ok (step stack e c) _ h in
    let ((more, r), h3, h4) = >>=-eq-ok (run stack es c2) _ h2 in
    let same : r ≡ d = cc in
    elim (step-Ends stack e c v) [
      | inl bad ↦ absurd (no_ok (sym bad ∙ h1))
      | inr (a, c3, h5, v3) ↦
          let there : c3 ≡ c2 = cc in
          subst IsValid same (run-IsValid stack es c2 more r (subst IsValid there v3) h3)
    ]
  where
    no_ok : {a : List Output × Client} → err aborted ≢ ok a
    no_ok q = cc

new_client-IsValid : (p : WsProtocol) → IsValid (new_client p)
new_client-IsValid p = record {
  connector = record { idle = λ e. refl; unarmed = refl };
  phase = inl (record { off = refl; resting = refl; untimed = refl; unconnected = refl });
}

run_then :
    (stack : WsHead) (e : Event) (es : List Event) (c d : Client) (acts : List Output)
    → step stack e c ≡ ok (acts, d)
    → run stack es d ≡ err aborted
    → run stack (e ∷ es) c ≡ err aborted
unfolding run
run_then stack e es c d acts h k = rw (run, h, k) refl

loop_start_aborts :
    (stack : WsHead) (s a n : ℕ) (c : Client)
    → c.starts ≡ suc n
    → c.net.connector.state ≡ connected
    → run stack (loop_start s a ∷ []) c ≡ err aborted
unfolding run step start_queued
loop_start_aborts stack s a n c e on =
    let q : start_queued s a c.starts c ≡ err aborted =
      ap (λ k. start_queued s a k c) e
      ∙ rw (start_queued, Runs.start_connected s a c.net.connector on) refl in
    rw (run, q) refl

-- With a start in the queue, two timers change nothing.
reconnect_aborts :
    (stack : WsHead) (s a : ℕ) (c : Client)
    → c.ws.heart ≡ reconnect
    → 0 < c.starts
    → c.net.connector.state ≡ connected
    → 0 < length c.ws.timers
    → run stack (timer ∷ loop_start s a ∷ []) c ≡ err aborted
reconnect_aborts stack s a c h p on timed =
    run_then stack timer (loop_start s a ∷ []) c _ _
      (fire_eq stack c timed ∙ fire_reconnect stack c h)
      (loop_start_aborts stack s a (c.starts - 1) _ (omega arith) on)

timers_abort :
    (stack : WsHead) (s a : ℕ) (c : Client) (heart : HeartState)
    → c.ws.heart ≡ heart
    → Live c
    → run stack (timer ∷ timer ∷ loop_start s a ∷ []) c ≡ err aborted
timers_abort stack s a c wait_ping h l =
    run_then stack timer _ c (pinged c) _ (fire_eq stack c l.timed ∙ fire_wait_ping stack c h) (
      run_then stack timer _ (pinged c) (restarted (pinged c)) _
        (fire_eq stack (pinged c) l.timed ∙ fire_wait_pong stack (pinged c) refl)
        (loop_start_aborts stack s a c.starts (restarted (pinged c)) (omega arith) l.on))
timers_abort stack s a c wait_pong h l =
    run_then stack timer _ c (restarted c) _ (fire_eq stack c l.timed ∙ fire_wait_pong stack c h)
      (reconnect_aborts stack s a (restarted c) refl (omega arith) l.on l.timed)
timers_abort stack s a c reconnect h l =
    let p : 0 < c.starts = elim l.asked [ inl n ↦ absurd (n h) | inr q ↦ q ] in
    run_then stack timer _ c _ _ (fire_eq stack c l.timed ∙ fire_reconnect stack c h) (
      reconnect_aborts stack s a (record c { ws = record c.ws { heart = reconnect } }) refl p l.on
        l.timed)
timers_abort stack s a c to_be_closed h l = absurd (l.beats h)

has_conn-Live : (c : Client) (fd : ℕ) → Fresh c ⊎ Live c → c.net.conn ≡ some fd → Live c
has_conn-Live c fd (inl f) e = absurd (ground arith)
has_conn-Live c fd (inr l) e = l

-- A client that has had a connection, whatever has happened to it since, does not survive a server that
-- falls silent: when two timers of the heartbeat run without a pong, the next `startInLoop` that the loop
-- takes from its queue aborts the process. The second timer at the latest calls `connect` where it should
-- open a new connection, and the connector asserts that it was never connected.
pub silent_peer_aborts :
    (stack : WsHead) (p : WsProtocol) (es : List Event) (acts : List Output) (c : Client)
    (fd s a : ℕ)
    → run stack es (new_client p) ≡ ok (acts, c)
    → c.net.conn ≡ some fd
    → run stack (timer ∷ timer ∷ loop_start s a ∷ []) c ≡ err aborted
silent_peer_aborts stack p es acts c fd s a h e =
    let v = run-IsValid stack es (new_client p) acts c (new_client-IsValid p) h in
    timers_abort stack s a c c.ws.heart refl (has_conn-Live c fd v.phase e)
