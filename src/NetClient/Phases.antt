-- ===== src/NetClient/Phases.antt =====
-- A client before its first connection and after it, and the steps of its connector.
use websocket_cpp.Base.{
  ℕ, zero, suc, ◌<◌, ◌≡◌, ◌≢◌, refl, ap, ◌∙◌, List, [], ◌∷◌, ◌++◌, true, length, ◌⊎◌, inl, inr,
  none, some, ok, err, aborted, arith,
}
use websocket_cpp.Protocol.Head.{WsHead}
use websocket_cpp.Heartbeat.{Action, HeartState, wait_ping, wait_pong, reconnect, to_be_closed}
use websocket_cpp.Connector.{
  NetState, disconnected, connected, Connector, Effect, close_fd, new_handler, delete_handler,
  new_connection, cancel_timer,
}
use websocket_cpp.Connector.Runs
use websocket_cpp.WsNet.{WsNet, on_connected}
use websocket_cpp.WsNet.Messages.{on_connected_beats, timer_count}
use websocket_cpp.NetClient.{
  Client, Output, Outcome, acts_of, deletes, establish, establish_all, establish_connection,
  with_connector, start_queued, write_ready, step,
}

-- Before the first connection, and after it.
pub record Fresh (c : Client) : Type 0 where
  pub off : c.net.connector.state ≡ disconnected
  pub resting : c.ws.heart ≡ wait_ping
  pub untimed : c.ws.timers ≡ []
  pub unconnected : c.net.conn ≡ none

pub record Live (c : Client) : Type 0 where
  pub on : c.net.connector.state ≡ connected
  pub beats : c.ws.heart ≢ to_be_closed
  pub asked : (c.ws.heart ≢ reconnect) ⊎ (0 < c.starts)
  pub timed : 0 < length c.ws.timers
  pub fd : ℕ
  pub has_conn : c.net.conn ≡ some fd

pub record IsValid (c : Client) : Type 0 where
  pub connector : Runs.IsValid c.net.connector
  pub phase : Fresh c ⊎ Live c

-- How a step ends: the process aborts, or the client is valid again.
abbrev pub Ends : Outcome → Type 0
Ends r = (r ≡ err aborted) ⊎ ((acts : List Output) × (d : Client) × (r ≡ ok (acts, d)) × IsValid d)

pub loop_start-Ends :
    (sockfd error n : ℕ) (c : Client)
    → n ≡ c.starts
    → IsValid c
    → Ends (start_queued sockfd error n c)
unfolding start_queued
loop_start-Ends sockfd error zero c e v = inr ([], c, refl, v)
loop_start-Ends sockfd error (suc n) c e v = elim v.phase [
  | inr live ↦
      inl (rw (start_queued, Runs.start_connected sockfd error c.net.connector live.on) refl)
  | inl fresh ↦
      let (es, k, q, vk, off) =
        Runs.start_disconnected sockfd error c.net.connector v.connector fresh.off in
      inr (
        [],
        with_connector k (record c { starts = n }),
        rw (start_queued, q) refl,
        record {
          connector = vk;
          phase = inl (record {
            off = off;
            resting = fresh.resting;
            untimed = fresh.untimed;
            unconnected = fresh.unconnected;
          });
        },
      )
]

establish_all_quiet :
    (stack : WsHead) (now : ℕ) (es : List Effect) (c : Client)
    → Runs.handed es ≡ 0
    → establish_all stack now es c ≡ ok ([], c)
unfolding establish_all
establish_all_quiet stack now [] c h = refl
establish_all_quiet stack now (new_connection fd ∷ es) c h = absurd (omega arith)
establish_all_quiet stack now (close_fd fd ∷ es) c h = establish_all_quiet stack now es c h
establish_all_quiet stack now (new_handler fd ∷ es) c h = establish_all_quiet stack now es c h
establish_all_quiet stack now (delete_handler fd ∷ es) c h = establish_all_quiet stack now es c h
establish_all_quiet stack now (cancel_timer tm ∷ es) c h = establish_all_quiet stack now es c h

establish_one :
    (stack : WsHead) (now fd : ℕ) (c : Client) (acts : List Action) (w : WsNet)
    → on_connected stack now true c.ws ≡ ok (acts, w)
    → establish_all stack now (delete_handler fd ∷ new_connection fd ∷ []) c
      ≡ ok (
        (deletes c.net.conn ++ acts_of acts) ++ [],
        record c { net = (establish_connection fd c.net).1; ws = w },
      )
unfolding establish_all establish establish_connection
establish_one stack now fd c acts w h = rw (establish_all, establish, h) refl

write_ready_eq :
    (stack : WsHead) (error now : ℕ) (c : Client) (es : List Effect) (k : Connector)
    → Runs.step (Runs.write_ready error) c.net.connector ≡ ok (es, k)
    → step stack (write_ready error now) c ≡ establish_all stack now es (with_connector k c)
unfolding step
write_ready_eq stack error now c es k h = rw (step, h) refl

quiet_phase :
    (k : Connector) (c : Client)
    → k.state ≡ c.net.connector.state
    → Fresh c ⊎ Live c
    → Fresh (with_connector k c) ⊎ Live (with_connector k c)
quiet_phase k c same (inl f) = inl (record {
  off = same ∙ f.off;
  resting = f.resting;
  untimed = f.untimed;
  unconnected = f.unconnected;
})
quiet_phase k c same (inr l) = inr (record {
  on = same ∙ l.on;
  beats = l.beats;
  asked = l.asked;
  timed = l.timed;
  fd = l.fd;
  has_conn = l.has_conn;
})

clash : (s : NetState) → s ≡ disconnected → s ≡ connected → ⊥
clash s h k = ground arith

open_heart : (s : HeartState) → s ≡ wait_ping → s ≢ to_be_closed
open_heart s h k = ground arith

pub waits_pong : (s : HeartState) → s ≡ wait_pong → s ≢ to_be_closed
waits_pong s h k = ground arith

pub no_reconnect : (s : HeartState) → s ≡ wait_pong → s ≢ reconnect
no_reconnect s h k = ground arith

pub write_ready-Ends :
    (stack : WsHead) (error now : ℕ) (c : Client)
    → IsValid c
    → Ends (step stack (write_ready error now) c)
unfolding establish_connection
write_ready-Ends stack error now c v =
    elim (Runs.write_ready_cases error c.net.connector v.connector) [
      | inr (es, k, e, vk, same, none_handed) ↦ inr (
        [],
        with_connector k c,
        write_ready_eq stack error now c es k e
            ∙ establish_all_quiet stack now es (with_connector k c) none_handed,
        record { connector = vk; phase = quiet_phase k c same v.phase },
      )
      | inl ((fd, k, e, vk, on), off) ↦ elim v.phase [
        | inr live ↦ absurd (clash c.net.connector.state off live.on)
        | inl fresh ↦
            let (acts, w, a, heart, timers) =
              on_connected_beats stack now true c.ws (open_heart c.ws.heart fresh.resting) in
            inr (
              _,
              _,
              write_ready_eq stack error now c _ k e
                  ∙ establish_one stack now fd (with_connector k c) acts w a,
              record {
                connector = vk;
                phase = inr (record {
                  on = on;
                  beats = waits_pong w.heart heart;
                  asked = inl (no_reconnect w.heart heart);
                  timed = omega (arith, ap timer_count fresh.resting);
                  fd = fd;
                  has_conn = refl;
                });
              },
            )
      ]
    ]
