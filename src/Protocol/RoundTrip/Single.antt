-- ===== src/Protocol/RoundTrip/Single.antt =====
-- A text or a blob of less than 500 bytes, which is sent in one frame.
use native.Mathlib.Decide.{dec_lt}
use websocket_cpp.Base.{
  ℕ, suc, ◌+◌, ◌<◌, ◌≡◌, refl, ap, ◌∙◌, List, [], ◌∷◌, ◌++◌, length, take-all, flatten,
  length-append, ok, false, ◌==◌, ◌>>=◌, arith,
}
use websocket_cpp.Protocol.Head.{
  WsHead, OpCode, continue_frame, text_frame, blob_frame, close_frame, ping_frame, pong_frame,
  opcode_value,
}
use websocket_cpp.Protocol.Head.Laws.{IsHead}
use websocket_cpp.Protocol.Mask.{mask_from}
use websocket_cpp.Protocol.Mask.Laws.{IsBytes, mask_from-mask_from, length-mask_from}
use websocket_cpp.Protocol.Encode.{data_head, data_frames, short_frame, long_frame}
use websocket_cpp.Protocol.Encode.Shape.{IsData, data_frames_short, data_frames_long}
use websocket_cpp.Protocol.Decode.{WsProtocol, returned, deliver, decode_loop, round}
use websocket_cpp.Protocol.Decode.Rounds.{
  short_wire, long_wire, turn, round_short, round_long, deliver_whole,
}
use websocket_cpp.Protocol.Decode.Loop.{decode_frame-eq, decode_loop-stop}
use websocket_cpp.Protocol.RoundTrip.{receive}

pub data_opcode : (type : OpCode) → IsData type → (opcode_value type == 0) ≡ false
data_opcode continue_frame d = absurd d
data_opcode text_frame d = refl
data_opcode blob_frame d = refl
data_opcode close_frame d = absurd d
data_opcode ping_frame d = absurd d
data_opcode pong_frame d = absurd d

pub data_head-IsHead :
    (stack : WsHead) (type : OpCode) (f n : ℕ)
    → f < 2
    → n < 128
    → IsHead (record (data_head stack type) { fin = f; payload_len = n })
data_head-IsHead stack continue_frame f n a b = omega arith
data_head-IsHead stack text_frame f n a b = omega arith
data_head-IsHead stack blob_frame f n a b = omega arith
data_head-IsHead stack close_frame f n a b = omega arith
data_head-IsHead stack ping_frame f n a b = omega arith
data_head-IsHead stack pong_frame f n a b = omega arith

-- One frame that fills the data received ends the loop.
pub loop_one :
    (f : ℕ) (p q : WsProtocol) (h : WsHead) (bytes call frame : List ℕ) (advance : ℕ)
    → length frame ≡ advance
    → round p (frame ++ []) (length (frame ++ []))
      ≡ (deliver h p bytes >>= turn advance [] (length (frame ++ [])))
    → deliver h p bytes ≡ ok (q, call)
    → decode_loop (suc f) p (frame ++ []) (length (frame ++ []))
      ≡ record { proto = q; calls = call ∷ []; status = returned }
loop_one f p q h bytes call frame advance e r del =
    decode_loop-stop f p (frame ++ []) len _ (r ∙ ap (λ o. o >>= turn advance [] len) del)
      (omega (arith, length-append frame []))
  where
    len : ℕ
    len = length (frame ++ [])

receive_one :
    (f : ℕ) (p q : WsProtocol) (h : WsHead) (bytes call frame : List ℕ) (advance : ℕ)
    → length frame ≡ advance
    → advance < 1000
    → round p (frame ++ []) (length (frame ++ []))
      ≡ (deliver h p bytes >>= turn advance [] (length (frame ++ [])))
    → deliver h p bytes ≡ ok (q, call)
    → receive (suc f) p (frame ∷ []) ≡ record { proto = q; calls = call ∷ []; status = returned }
unfolding flatten
receive_one f p q h bytes call frame advance e small r del =
    decode_frame-eq (suc f) p (frame ++ []) (length (frame ++ []))
      (omega (arith, length-append frame []))
    ∙ loop_one f p q h bytes call frame advance e r del

module _ (f : ℕ) (p : WsProtocol) (h : WsHead) (xs : List ℕ) (v : IsHead h) (fin : h.fin ≡ 1)
    (mask : h.mask ≡ 1) (whole : (h.opcode == 0) ≡ false) (b : IsBytes xs)
    (pos : 0 < length xs) where
  unmasked : deliver h p (mask_from 0 (mask_from 0 xs)) ≡ ok (p, xs)
  unmasked = deliver_whole h p _ whole ∙ ap (λ t. ok (p, t)) (mask_from-mask_from 0 xs b)

  -- A masked frame with a short header, by itself.
  pub receive_short :
      h.payload_len ≡ length xs
      → length xs < 126
      → receive (suc f) p (short_frame h (mask_from 0 xs) (length xs) ∷ [])
        ≡ record { proto = p; calls = xs ∷ []; status = returned }
  receive_short l small =
      rw (take-all (length xs) (mask_from 0 xs) (omega (arith, length-mask_from 0 xs))) (
        receive_one f p p h _ xs (short_wire h (mask_from 0 xs)) (length xs + 6)
          (omega (arith, length-mask_from 0 xs)) (omega arith)
          (round_short p h (length xs) (mask_from 0 xs) [] _ v fin mask l (length-mask_from 0 xs)
            pos small)
          unmasked)

  -- A masked frame with its length in two bytes, by itself.
  pub receive_long :
      h.payload_len ≡ 126
      → length xs < 500
      → receive (suc f) p (long_frame h (mask_from 0 xs) (length xs) ∷ [])
        ≡ record { proto = p; calls = xs ∷ []; status = returned }
  receive_long l small =
      rw (take-all (length xs) (mask_from 0 xs) (omega (arith, length-mask_from 0 xs))) (
        receive_one f p p h _ xs (long_wire h (length xs) (mask_from 0 xs)) (length xs + 8)
          (omega (arith, length-mask_from 0 xs)) (omega arith)
          (round_long p h (length xs) (mask_from 0 xs) [] _ v fin mask l (length-mask_from 0 xs) pos
            (omega arith))
          unmasked)

-- A text or a blob of less than 500 bytes goes out as one frame, and comes in as it was.
pub receive_single :
    (f : ℕ) (p : WsProtocol) (stack : WsHead) (type : OpCode) (xs : List ℕ)
    → IsData type
    → IsBytes xs
    → 0 < length xs
    → length xs < 500
    → receive (suc f) p (data_frames (data_head stack type) (mask_from 0 xs) (length xs))
      ≡ record { proto = p; calls = xs ∷ []; status = returned }
receive_single f p stack type xs d b pos small = elim (dec_lt (length xs) 126) [
  | yes a ↦ rw (data_frames_short (data_head stack type) (mask_from 0 xs) (length xs) a) (
      receive_short f p _ xs (data_head-IsHead stack type 1 (length xs) (omega arith) (omega arith))
        refl refl (data_opcode type d) b pos refl a)
  | no a ↦
      rw (data_frames_long (data_head stack type) (mask_from 0 xs) (length xs) (omega arith) small)
        (receive_long f p _ xs (data_head-IsHead stack type 1 126 (omega arith) (omega arith)) refl
          refl (data_opcode type d) b pos refl small)
]
