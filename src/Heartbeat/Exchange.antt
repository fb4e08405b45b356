-- ===== src/Heartbeat/Exchange.antt =====
-- Heartbeats between the two ends, and their effect on the list of connections.
use websocket_cpp.Base.{
  Bool, if◌then◌else◌, ℕ, suc, ◌+◌, ◌/◌, ◌<◌, ◌≤◌, ◌≡◌, ◌^◌, inl, inr, refl, List, [], ◌∷◌, map, ok,
  length, take, arith, true, false, ◌&&◌, Bool-cases, ◌==◌,
}
use websocket_cpp.Heartbeat.{
  ConnHeart, Action, send, send_heartbeat, process_ping, same_bytes, touch, update_conn, timeout,
  ping_text, pong_text,
}
use websocket_cpp.Heartbeat.Receiver.{IsDistinct, Spared, stale, touch-IsDistinct, touch-Spared}
use websocket_cpp.Protocol.Head.{WsHead, ping_frame, pong_frame}
use websocket_cpp.Protocol.Head.Laws.{IsHead}
use websocket_cpp.Protocol.Encode.{Encoded, encode_frame}
use websocket_cpp.Protocol.Decode.{WsProtocol, returned}
use websocket_cpp.Protocol.RoundTrip.{receive}
use websocket_cpp.Protocol.RoundTrip.Control.{control_round_trip}
use websocket_cpp.Protocol.Mask.{compute_mask, mask_from}
use websocket_cpp.TimerQueue.{microseconds_per_second}

process_ping_other :
    (stack : WsHead) (text : List ℕ) (len : ℕ)
    → (len == length ping_text && same_bytes (take len text) ping_text) ≡ false
    → process_ping stack text len ≡ ok ([], 0)
unfolding process_ping
process_ping_other stack text len h = rw (process_ping, h) refl

process_ping_ping :
    (stack : WsHead) (text : List ℕ) (len : ℕ) (e : Encoded)
    → (len == length ping_text && same_bytes (take len text) ping_text) ≡ true
    → encode_frame stack pong_text 4 pong_frame ≡ ok e
    → process_ping stack text len ≡ ok (map send e.frames, 1)
unfolding process_ping
process_ping_ping stack text len e h r = rw (process_ping, h, r) refl

encode_pong : (stack : WsHead) → (e : Encoded) × (encode_frame stack pong_text 4 pong_frame ≡ ok e)
unfolding encode_frame compute_mask mask_from take
encode_pong stack = (_, refl)

-- Whether `processPing` answers the data
abbrev pub asks_ping : List ℕ → ℕ → Bool
asks_ping text len = len == length ping_text && same_bytes (take len text) ping_text

-- `updateConn` never fails, answers exactly a "PING", keeps every connection once in the list, and spares the connection: it is
-- not among those that have timed out at any time up to 15 seconds later. The time in seconds fits 32
-- bits.
pub update_conn_lem :
    (stack : WsHead) (now conn : ℕ) (text : List ℕ) (len : ℕ) (list : List ConnHeart)
    → IsDistinct list
    → now / microseconds_per_second < 2 ^ 32
    → (acts : List Action) × (ret : ℕ) × (after : List ConnHeart) × (update_conn stack now conn text
          len list
        ≡ ok (acts, ret, after))
      × (ret ≡ (if asks_ping text len then 1 else 0))
      × IsDistinct after
      × ((later : ℕ)
          → later / microseconds_per_second ≤ now / microseconds_per_second + timeout
          → Spared conn (stale later after))
unfolding update_conn
update_conn_lem stack now conn text len list d fits = elim (Bool-cases (asks_ping text len)) [
  | inl y ↦
      let (e, r) = encode_pong stack in
      (
        map send e.frames,
        1,
        touch now conn list,
        rw (update_conn, process_ping_ping stack text len e y r) refl,
        rw y refl,
        touch-IsDistinct now conn list d,
        (λ later soon. touch-Spared now later conn list d fits soon),
      )
  | inr n ↦ (
    [],
    0,
    touch now conn list,
    rw (update_conn, process_ping_other stack text len n) refl,
    rw n refl,
    touch-IsDistinct now conn list d,
    (λ later soon. touch-Spared now later conn list d fits soon),
  )
]

-- A heartbeat: the ping that the sender sends is decoded at the other end to "PING", which `processPing`
-- answers, and its answer is decoded by the sender's end to "PONG". No state of a decoder changes.
pub heartbeat_exchange :
    (f : ℕ) (p q : WsProtocol) (stack again : WsHead)
    → IsHead stack
    → IsHead again
    → (pings : List (List ℕ)) × (pongs : List (List ℕ)) × (send_heartbeat stack
        ≡ ok (map send pings))
      × (receive (suc f) p pings ≡ record { proto = p; calls = ping_text ∷ []; status = returned })
      × (process_ping again ping_text (length ping_text) ≡ ok (map send pongs, 1))
      × (receive (suc f) q pongs ≡ record { proto = q; calls = pong_text ∷ []; status = returned })
unfolding send_heartbeat take
heartbeat_exchange f p q stack again h1 h2 =
    let (e1, s1, r1) =
      control_round_trip f p stack ping_frame ping_text tt h1 (inr refl)
        (omega arith, (omega arith, (omega arith, (omega arith, tt)))) (omega arith)
        (omega arith) in
    let (e2, s2, r2) =
      control_round_trip f q again pong_frame pong_text tt h2 (inr refl)
        (omega arith, (omega arith, (omega arith, (omega arith, tt)))) (omega arith)
        (omega arith) in
    (
      e1.frames,
      e2.frames,
      rw (send_heartbeat, s1) refl,
      r1,
      process_ping_ping again ping_text 4 e2 refl s2,
      r2,
    )
