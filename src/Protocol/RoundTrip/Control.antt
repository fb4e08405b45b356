-- ===== src/Protocol/RoundTrip/Control.antt =====
-- Ping, pong and close frames.
use websocket_cpp.Base.{
  ℕ, suc, ◌<◌, ◌≡◌, refl, ◌⊎◌, List, [], ◌∷◌, length, ok, true, false, ◌==◌, arith,
}
use websocket_cpp.Protocol.Head.{
  WsHead, OpCode, continue_frame, text_frame, blob_frame, close_frame, ping_frame, pong_frame,
}
use websocket_cpp.Protocol.Head.Laws.{IsHead}
use websocket_cpp.Protocol.Mask.Laws.{IsBytes}
use websocket_cpp.Protocol.Encode.{Encoded, encode_frame}
use websocket_cpp.Protocol.Encode.Shape.{IsControl, sets_mask, control_head, encode_frame_control}
use websocket_cpp.Protocol.Decode.{WsProtocol, returned}
use websocket_cpp.Protocol.RoundTrip.{receive}
use websocket_cpp.Protocol.RoundTrip.Single.{receive_short}

control_opcode :
    (stack : WsHead) (type : OpCode) (n : ℕ)
    → IsControl type
    → ((control_head stack type n).opcode == 0) ≡ false
control_opcode stack continue_frame n c = absurd c
control_opcode stack text_frame n c = absurd c
control_opcode stack blob_frame n c = absurd c
control_opcode stack close_frame n c = refl
control_opcode stack ping_frame n c = refl
control_opcode stack pong_frame n c = refl

control_mask :
    (stack : WsHead) (type : OpCode) (n : ℕ)
    → (stack.mask ≡ 1) ⊎ (sets_mask type ≡ true)
    → (control_head stack type n).mask ≡ 1
control_mask stack type n h = ground arith

control-IsHead :
    (stack : WsHead) (type : OpCode) (n : ℕ)
    → IsHead stack
    → IsControl type
    → n < 126
    → IsHead (control_head stack type n)
control-IsHead stack continue_frame n v c small = absurd c
control-IsHead stack text_frame n v c small = absurd c
control-IsHead stack blob_frame n v c small = absurd c
control-IsHead stack close_frame n v c small = omega arith
control-IsHead stack ping_frame n v c small = omega arith
control-IsHead stack pong_frame n v c small = omega arith

-- A ping, a pong or a close with a payload of 1 to 125 bytes comes in as it went out, in one call,
-- and leaves the state alone, also between the fragments of another message. For a close the
-- uninitialised mask bit of the header must happen to be set.
pub control_round_trip :
    (f : ℕ) (p : WsProtocol) (stack : WsHead) (type : OpCode) (xs : List ℕ)
    → IsControl type
    → IsHead stack
    → (stack.mask ≡ 1) ⊎ (sets_mask type ≡ true)
    → IsBytes xs
    → 0 < length xs
    → length xs < 126
    → (e : Encoded) × (encode_frame stack xs (length xs) type ≡ ok e)
      × (receive (suc f) p e.frames ≡ record { proto = p; calls = xs ∷ []; status = returned })
control_round_trip f p stack type xs c v m b pos small = (
  _,
  encode_frame_control stack xs type c pos,
  receive_short f p (control_head stack type (length xs)) xs
      (control-IsHead stack type (length xs) v c small) refl (control_mask stack type (length xs) m)
      (control_opcode stack type (length xs) c) b pos (omega arith) small,
)
