-- ===== src/WebSocketServer/Replies.antt =====
-- From `send` of the server to the callback of a client.
use websocket_cpp.Base.{
  ◌%◌, ◌≤◌, ◌⊎◌, arith, sym, append-nil, ℕ, suc, ◌<◌, ◌≡◌, refl, ap, ◌∙◌, List, [], ◌∷◌, map,
  flatten, Bool, true, false, ◌||◌, length, if◌then◌else◌, some, ok,
}
use websocket_cpp.Protocol.Head.{WsHead, text_frame}
use websocket_cpp.Protocol.Mask.{mask_from}
use websocket_cpp.Protocol.Mask.Laws.{IsBytes}
use websocket_cpp.Protocol.Encode.{Encoded, encode_frame, data_head, data_frames}
use websocket_cpp.Protocol.Encode.Shape.{encode_frame_data}
use websocket_cpp.Protocol.Decode.{WsProtocol, decode_frame, Decoded}
use websocket_cpp.Protocol.RoundTrip.Behind.{decode_behind}
use websocket_cpp.Protocol.Decode.Append.{decode_frame-append}
use websocket_cpp.Protocol.RoundTrip.{Delivers, receive}
use websocket_cpp.Protocol.RoundTrip.Message.{decode_frame-encode_frame}
use websocket_cpp.Heartbeat.{send, wait_ping}
use websocket_cpp.WsNet.{WsNet, on_conn_message}
use websocket_cpp.WsNet.Messages.{is_pong, other_messages, has_pong, on_conn_message_eq}
use websocket_cpp.WebSocketServer.{send_text}

send_text_eq :
    (stack : WsHead) (conn : ℕ) (text : List ℕ) (e : Encoded)
    → encode_frame stack text (length text) text_frame ≡ ok e
    → send_text stack (some conn) text ≡ ok (map send e.frames)
unfolding send_text
send_text_eq stack conn text e h = rw (send_text, h) refl

-- A short message leaves the decoder as it was.
short_proto :
    (f : ℕ) (from : WsHead) (p : WsProtocol) (xs : List ℕ) (e : Encoded)
    → IsBytes xs
    → 0 < length xs
    → length xs < 500
    → encode_frame from xs (length xs) text_frame ≡ ok e
    → (receive (suc f) p e.frames).proto ≡ p
short_proto f from p xs e b pos short sent =
    let wire : List ℕ =
      flatten (data_frames (data_head from text_frame) (mask_from 0 xs) (length xs)) in
    let all = sym sent ∙ encode_frame_data from xs text_frame tt pos in
    let same : e.frames ≡ data_frames (data_head from text_frame) (mask_from 0 xs) (length xs) =
      ap (λ (x : Encoded). x.frames) (ok_injective e _ all) in
    ap (λ fs. (receive (suc f) p fs).proto) same
    ∙ ap (λ m. (decode_frame (suc f) p m (length wire)).proto) (sym (append-nil wire))
    ∙ ap (λ (x : Decoded). x.proto) (decode_behind f p from text_frame xs [] tt b pos short)
  where
    ok_injective : (a c : Encoded) → ok a ≡ ok c → a ≡ c
    ok_injective a c q = cc

-- From the server to a client: what `send` encodes comes in at `onConnMessage` of the client as one
-- message, the payload, and the decoder returns and keeps the size of its array; only "PONG" is taken for
-- an answer to a ping instead. A payload of less than 500 bytes leaves the decoder as it was. The payload
-- is not empty, is shorter than 500 or has a last slice of 126 bytes or more, and has at most 4000000
-- bytes; the array of the decoder has room for it, and the fuel is more than its length.
pub client_receives :
    (f : ℕ) (from : WsHead) (conn : ℕ) (n : WsNet) (xs : List ℕ)
    → IsBytes xs
    → 0 < length xs
    → (length xs < 500) ⊎ (126 ≤ length xs % 500)
    → length xs ≤ 4000000
    → length xs ≤ length n.proto.frame_buff
    → length xs ≤ f
    → (frames : List (List ℕ)) × (d : Decoded) × (send_text from (some conn) xs
        ≡ ok (map send frames))
      × (on_conn_message (suc f) n (flatten frames) ≡ (
        (if is_pong xs then [] else xs ∷ []),
        d,
        record n { proto = d.proto; heart = if is_pong xs then wait_ping else n.heart },
      ))
      × Delivers n.proto (xs ∷ []) d
      × (length xs < 500 → d.proto ≡ n.proto)
client_receives f from conn n xs b pos last small room fuel =
    let (e, sent, got) =
      decode_frame-encode_frame from text_frame xs n.proto (suc f) tt b pos last small room
        (omega arith) in
    let d : Decoded = receive (suc f) n.proto e.frames in
    (
      e.frames,
      d,
      send_text_eq from conn xs e sent,
      on_conn_message_eq (suc f) n (flatten e.frames) d
            (decode_frame-append (suc f) n.proto (flatten e.frames) (0 ∷ []) got.returns)
          ∙ ap
              (λ c. (
                other_messages c,
                d,
                record n { proto = d.proto; heart = if has_pong c then wait_ping else n.heart },
              ))
              got.calls_made
          ∙ ap
              (λ a. (
                (if is_pong xs then [] else xs ∷ []),
                d,
                record n { proto = d.proto; heart = if a then wait_ping else n.heart },
              ))
              (or-false (is_pong xs)),
      got,
      (λ short. short_proto f from n.proto xs e b pos short sent),
    )
  where
    or-false : (a : Bool) → (a || false) ≡ a
    or-false true = refl
    or-false false = refl
