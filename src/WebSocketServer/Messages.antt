-- ===== src/WebSocketServer/Messages.antt =====
-- From `send` at one end to the callback of the application at the other.
use websocket_cpp.Base.{
  ◌%◌, ap, ◌∙◌, ◌⊎◌, length-take, arith, ℕ, ◌+◌, ◌/◌, ◌<◌, ◌≤◌, ◌≡◌, ◌^◌, refl, List, [], ◌∷◌, ◌++◌,
  flatten, Bool, true, false, length, ◌==◌, if◌then◌else◌, ok,
}
use websocket_cpp.Protocol.Head.{WsHead, OpCode}
use websocket_cpp.Protocol.Mask.Laws.{IsBytes}
use websocket_cpp.Protocol.Encode.{Encoded, encode_frame}
use websocket_cpp.Protocol.Encode.Shape.{IsData}
use websocket_cpp.Protocol.Decode.{
  WsProtocol, max_framesize, Decoded, returned, new_protocol, decode_frame,
}
use websocket_cpp.Protocol.Decode.Append.{decode_frame-append}
use websocket_cpp.Protocol.RoundTrip.Message.{decode_frame-encode_frame}
use websocket_cpp.Heartbeat.{Action, ConnHeart, update_conn, timeout}
use websocket_cpp.Heartbeat.Receiver.{IsDistinct, Spared, stale}
use websocket_cpp.Heartbeat.Exchange.{asks_ping, update_conn_lem}
use websocket_cpp.TimerQueue.{microseconds_per_second}
use websocket_cpp.WebSocketServer.{
  Handled, on_conn_new, dec_frame_callback, dec_frame_callbacks, on_conn_message,
}

-- What is handled is right: the application got `messages`, and the list is in order, with `conn` in it.
pub record IsHandled (now conn : ℕ) (messages : List (List ℕ)) (h : Handled) : Type 0 where
  pub told : h.messages ≡ messages
  pub distinct : IsDistinct h.list
  pub spared :
      (later : ℕ)
      → later / microseconds_per_second ≤ now / microseconds_per_second + timeout
      → Spared conn (stale later h.list)

dec_frame_callback_eq :
    (stack : WsHead) (now conn ret : ℕ) (text : List ℕ) (list after : List ConnHeart)
    (acts : List Action)
    → update_conn stack now conn text (length text) list ≡ ok (acts, ret, after)
    → dec_frame_callback stack now conn text list
      ≡ ok (record { acts = acts; messages = if ret == 0 then text ∷ [] else []; list = after })
unfolding dec_frame_callback
dec_frame_callback_eq stack now conn ret text list after acts e = rw (dec_frame_callback, e) refl

dec_frame_callbacks_one :
    (stack : WsHead) (now conn : ℕ) (text : List ℕ) (list : List ConnHeart) (h : Handled)
    → dec_frame_callback stack now conn text list ≡ ok h
    → dec_frame_callbacks stack now conn (text ∷ []) list
      ≡ ok (record { acts = h.acts ++ []; messages = h.messages ++ []; list = h.list })
unfolding dec_frame_callbacks
dec_frame_callbacks_one stack now conn text list h e = rw (dec_frame_callbacks, e) refl

on_conn_message_eq :
    (f : ℕ) (stack : WsHead) (now : ℕ) (heap : List ℕ) (conn : ℕ) (wire : List ℕ)
    (list : List ConnHeart) (d : Decoded) (h : Handled)
    → decode_frame f (new_protocol heap) (wire ++ (0 ∷ [])) (length wire) ≡ d
    → dec_frame_callbacks stack now conn d.calls list ≡ ok h
    → on_conn_message f stack now heap conn wire list ≡ ok (h, d.status)
unfolding on_conn_message
on_conn_message_eq f stack now heap conn wire list d h e r = rw (on_conn_message, e, r) refl

ping_message :
    (asks : Bool) (ret : ℕ) (text : List ℕ)
    → ret ≡ (if asks then 1 else 0)
    → (if ret == 0 then text ∷ [] else []) ++ [] ≡ (if asks then [] else text ∷ [])
ping_message true ret text e = rw e refl
ping_message false ret text e = rw e refl

new_protocol_room :
    (heap : List ℕ) (n : ℕ)
    → n ≤ 4000000
    → n ≤ length heap
    → n ≤ length (new_protocol heap).frame_buff
unfolding new_protocol
new_protocol_room heap n small room = omega (arith, length-take max_framesize heap)

-- From one end to the other: a text or a blob of bytes that is shorter than 500, or whose last slice has
-- 126 bytes or more, is encoded at one end, and the bytes of its frames are handed to `onConnMessage` of
-- the server. The decoder returns, the application gets exactly the payload, once, unless it is "PING",
-- which is answered and not passed on, and the heartbeat knows the connection, which is not closed for 15
-- seconds. The payload is not empty and has at most 4000000 bytes, what `new` allocates has room for it,
-- and the fuel is at least its length; the list of the heartbeat holds no connection twice, and the time
-- in seconds fits 32 bits.
pub server_receives :
    (f : ℕ) (from stack : WsHead) (type : OpCode) (now : ℕ) (heap : List ℕ) (conn : ℕ) (xs : List ℕ)
    (list : List ConnHeart)
    → IsData type
    → IsBytes xs
    → 0 < length xs
    → (length xs < 500) ⊎ (126 ≤ length xs % 500)
    → length xs ≤ 4000000
    → length xs ≤ length heap
    → length xs ≤ f
    → IsDistinct list
    → now / microseconds_per_second < 2 ^ 32
    → (e : Encoded) × (h : Handled) × (encode_frame from xs (length xs) type ≡ ok e)
      × (on_conn_message f stack now heap conn (flatten e.frames) list ≡ ok (h, returned))
      × IsHandled now conn (if asks_ping xs (length xs) then [] else xs ∷ []) h
server_receives f from stack type now heap conn xs list d b pos last small room fuel distinct fits =
    let p : WsProtocol = new_protocol heap in
    let (acts, ret, after, u, answer, dist, sp) =
      update_conn_lem stack now conn xs (length xs) list distinct fits in
    let h : Handled = record {
      acts = acts ++ [];
      messages = (if ret == 0 then xs ∷ [] else []) ++ [];
      list = after;
    } in
    let one =
      dec_frame_callbacks_one stack now conn xs list _
        (dec_frame_callback_eq stack now conn ret xs list after acts u) in
    let (e, sent, got) =
      decode_frame-encode_frame from type xs p f d b pos last small
        (new_protocol_room heap (length xs) small room) fuel in
    (
      e,
      h,
      sent,
      on_conn_message_eq f stack now heap conn (flatten e.frames) list _ _
            (decode_frame-append f p (flatten e.frames) (0 ∷ []) got.returns)
            (ap (λ c. dec_frame_callbacks stack now conn c list) got.calls_made ∙ one)
          ∙ ap (λ s. ok (h, s)) got.returns,
      record {
        told = ping_message (asks_ping xs (length xs)) ret xs answer;
        distinct = dist;
        spared = sp;
      },
    )

-- A new connection joins the list of the heartbeat.
pub on_conn_new_lem :
    (stack : WsHead) (now conn : ℕ) (list : List ConnHeart)
    → IsDistinct list
    → now / microseconds_per_second < 2 ^ 32
    → (after : List ConnHeart) × (on_conn_new stack now conn list ≡ ok after) × IsDistinct after
unfolding on_conn_new
on_conn_new_lem stack now conn list distinct fits =
    let (acts, ret, after, u, answer, dist, sp) =
      update_conn_lem stack now conn [] 0 list distinct fits in
    (after, rw (on_conn_new, u) refl, dist)
