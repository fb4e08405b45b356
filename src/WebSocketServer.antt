-- ===== src/WebSocketServer.antt =====
-- `WebSocketServer` of websocket/WebSocketServer.cpp: from the bytes of a connection to the callback of
-- the application, and back. `heartbeat_` and `onConnMsgFunc_` are set. A connection and its id are one
-- number.
pub mod Messages
pub mod Replies
mod Tests
use websocket_cpp.Base.{
  ℕ, zero, suc, ◌+◌, List, [], ◌∷◌, ◌++◌, map, Option, none, some, length, ◌==◌, if◌then◌else◌,
  Result, ok, ◌>>=◌,
}
use websocket_cpp.Protocol.Head.{WsHead, text_frame}
use websocket_cpp.Protocol.Encode.{encode_frame}
use websocket_cpp.Protocol.Decode.{Decoded, Status, new_protocol, decode_frame}
use websocket_cpp.Heartbeat.{Action, send, ConnHeart, update_conn}

-- `onConnNew`
pub on_conn_new : WsHead → ℕ → ℕ → List ConnHeart → Result (List ConnHeart)
on_conn_new stack now conn list = do
  (acts, ret, after) ← update_conn stack now conn [] 0 list
  ok after

-- What is sent back, the messages that the application gets, and the list of the heartbeat.
pub record Handled : Type 0 where
  pub acts : List Action
  pub messages : List (List ℕ)
  pub list : List ConnHeart

-- `decFrameCallback`; `stack` is the header that a pong is made from.
pub dec_frame_callback : WsHead → ℕ → ℕ → List ℕ → List ConnHeart → Result Handled
dec_frame_callback stack now conn text list = do
  (acts, ret, after) ← update_conn stack now conn text (length text) list
  ok (record { acts = acts; messages = if ret == 0 then text ∷ [] else []; list = after })

-- The calls of `decFrameCallback` that `decodeFrame` makes
pub dec_frame_callbacks : WsHead → ℕ → ℕ → List (List ℕ) → List ConnHeart → Result Handled
dec_frame_callbacks stack now conn [] list = ok (record { acts = []; messages = []; list = list })
dec_frame_callbacks stack now conn (text ∷ texts) list = do
  here ← dec_frame_callback stack now conn text list
  later ← dec_frame_callbacks stack now conn texts here.list
  ok (record {
    acts = here.acts ++ later.acts;
    messages = here.messages ++ later.messages;
    list = later.list;
  })

-- `onConnMessage` with the bytes that the buffer gave, which `c_str()` ends with a 0. The decoder is a
-- new one each time, whose array holds what the `heap` did; `fuel` is that of its loop. How the decoder
-- ended is the second part.
pub on_conn_message :
    ℕ → WsHead → ℕ → List ℕ → ℕ → List ℕ → List ConnHeart → Result (Handled × Status)
on_conn_message fuel stack now heap conn text list = do
  let d = decode_frame fuel (new_protocol heap) (text ++ (0 ∷ [])) (length text)
  handled ← dec_frame_callbacks stack now conn d.calls list
  ok (handled, d.status)

-- `send` to a connection that `getconn` finds or not
pub send_text : WsHead → Option ℕ → List ℕ → Result (List Action)
send_text stack none text = ok []
send_text stack (some conn) text = do
  e ← encode_frame stack text (length text) text_frame
  ok (map send e.frames)
