-- ===== src/Protocol/RoundTrip/Behind.antt =====
-- One frame, in an array that goes on behind it, as the `c_str()` of the callers does.
use native.Mathlib.Decide.{dec_lt}
use websocket_cpp.Base.{
  ℕ, suc, ◌+◌, ◌<◌, ◌≡◌, refl, ap, ◌∙◌, List, [], ◌∷◌, ◌++◌, append-nil, length, take-all, flatten,
  ok, false, ◌==◌, ◌>>=◌, arith,
}
use websocket_cpp.Protocol.Head.{WsHead, OpCode}
use websocket_cpp.Protocol.Head.Laws.{IsHead}
use websocket_cpp.Protocol.Mask.{mask_from}
use websocket_cpp.Protocol.Mask.Laws.{IsBytes, mask_from-mask_from, length-mask_from}
use websocket_cpp.Protocol.Encode.{data_head, data_frames, short_frame, long_frame}
use websocket_cpp.Protocol.Encode.Shape.{IsData, data_frames_short, data_frames_long}
use websocket_cpp.Protocol.Decode.{WsProtocol, returned, deliver, decode_frame, round}
use websocket_cpp.Protocol.Decode.Rounds.{
  short_wire, long_wire, turn, round_short, round_long, deliver_whole,
}
use websocket_cpp.Protocol.Decode.Loop.{decode_frame-eq, decode_loop-stop}
use websocket_cpp.Protocol.RoundTrip.Single.{data_head-IsHead, data_opcode}

decode_one :
    (f : ℕ) (p : WsProtocol) (h : WsHead) (bytes call frame behind : List ℕ) (advance : ℕ)
    → length frame ≡ advance
    → advance < 1000
    → round p (frame ++ behind) (length frame)
      ≡ (deliver h p bytes >>= turn advance behind (length frame))
    → deliver h p bytes ≡ ok (p, call)
    → decode_frame (suc f) p (frame ++ behind) (length frame)
      ≡ record { proto = p; calls = call ∷ []; status = returned }
decode_one f p h bytes call frame behind advance e small r del =
    decode_frame-eq (suc f) p (frame ++ behind) (length frame) (omega arith)
    ∙ decode_loop-stop f p (frame ++ behind) (length frame) _
        (r ∙ ap (λ o. o >>= turn advance behind (length frame)) del) (omega arith)

module _ (f : ℕ) (p : WsProtocol) (h : WsHead) (xs behind : List ℕ) (v : IsHead h) (fin : h.fin ≡ 1)
    (mask : h.mask ≡ 1) (whole : (h.opcode == 0) ≡ false) (b : IsBytes xs)
    (pos : 0 < length xs) where
  unmasked : deliver h p (mask_from 0 (mask_from 0 xs)) ≡ ok (p, xs)
  unmasked = deliver_whole h p _ whole ∙ ap (λ t. ok (p, t)) (mask_from-mask_from 0 xs b)

  decode_short :
      h.payload_len ≡ length xs
      → length xs < 126
      → decode_frame
          (suc f)
          p
          (short_frame h (mask_from 0 xs) (length xs) ++ behind)
          (length (short_frame h (mask_from 0 xs) (length xs)))
        ≡ record { proto = p; calls = xs ∷ []; status = returned }
  decode_short l small =
      rw (take-all (length xs) (mask_from 0 xs) (omega (arith, length-mask_from 0 xs))) (
        decode_one f p h _ xs (short_wire h (mask_from 0 xs)) behind (length xs + 6)
          (omega (arith, length-mask_from 0 xs)) (omega arith)
          (round_short p h (length xs) (mask_from 0 xs) behind _ v fin mask l
            (length-mask_from 0 xs) pos small)
          unmasked)

  decode_long :
      h.payload_len ≡ 126
      → length xs < 500
      → decode_frame
          (suc f)
          p
          (long_frame h (mask_from 0 xs) (length xs) ++ behind)
          (length (long_frame h (mask_from 0 xs) (length xs)))
        ≡ record { proto = p; calls = xs ∷ []; status = returned }
  decode_long l small =
      rw (take-all (length xs) (mask_from 0 xs) (omega (arith, length-mask_from 0 xs))) (
        decode_one f p h _ xs (long_wire h (length xs) (mask_from 0 xs)) behind (length xs + 8)
          (omega (arith, length-mask_from 0 xs)) (omega arith)
          (round_long p h (length xs) (mask_from 0 xs) behind _ v fin mask l (length-mask_from 0 xs)
            pos (omega arith))
          unmasked)

-- A text or a blob of less than 500 bytes is received as it was, whatever lies behind its frame.
pub decode_behind :
    (f : ℕ) (p : WsProtocol) (stack : WsHead) (type : OpCode) (xs behind : List ℕ)
    → IsData type
    → IsBytes xs
    → 0 < length xs
    → length xs < 500
    → let wire = flatten (data_frames (data_head stack type) (mask_from 0 xs) (length xs)) in
      decode_frame (suc f) p (wire ++ behind) (length wire)
      ≡ record { proto = p; calls = xs ∷ []; status = returned }
unfolding flatten
decode_behind f p stack type xs behind d b pos small = elim (dec_lt (length xs) 126) [
  | yes a ↦
      rw
        (
          data_frames_short (data_head stack type) (mask_from 0 xs) (length xs) a,
          flatten,
          append-nil,
        )
        (decode_short f p _ xs behind
          (data_head-IsHead stack type 1 (length xs) (omega arith) (omega arith)) refl refl
          (data_opcode type d) b pos refl a)
  | no a ↦
      rw
        (
          data_frames_long (data_head stack type) (mask_from 0 xs) (length xs) (omega arith) small,
          flatten,
          append-nil,
        )
        (decode_long f p _ xs behind (data_head-IsHead stack type 1 126 (omega arith) (omega arith))
          refl refl (data_opcode type d) b pos refl small)
]
