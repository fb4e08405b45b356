-- ===== src/Protocol/RoundTrip/Resend.antt =====
-- The payload is masked where the caller keeps it.
use websocket_cpp.Base.{ℕ, suc, ◌<◌, ◌≡◌, refl, sym, ◌∙◌, ap, List, [], ◌∷◌, length, ok, arith}
use websocket_cpp.Protocol.Head.{WsHead, OpCode}
use websocket_cpp.Protocol.Mask.{mask_from}
use websocket_cpp.Protocol.Mask.Laws.{
  IsBytes, mask_from-mask_from, length-mask_from, mask_from-IsBytes,
}
use websocket_cpp.Protocol.Encode.{Encoded, encode_frame}
use websocket_cpp.Protocol.Encode.Shape.{IsData, encode_frame_data}
use websocket_cpp.Protocol.Decode.{WsProtocol, returned}
use websocket_cpp.Protocol.RoundTrip.{receive}
use websocket_cpp.Protocol.RoundTrip.Single.{receive_single}

-- A text or a blob of 1 to 499 bytes that is sent a second time from the same array arrives masked:
-- the first call leaves the masked bytes in the caller's array, the second sends those as the payload
-- and restores the array.
pub resend_masked :
    (f : ℕ) (p : WsProtocol) (stack again : WsHead) (type : OpCode) (xs : List ℕ)
    → IsData type
    → IsBytes xs
    → 0 < length xs
    → length xs < 500
    → (e1 : Encoded) × (e2 : Encoded) × (encode_frame stack xs (length xs) type ≡ ok e1)
      × (encode_frame again e1.payload (length xs) type ≡ ok e2)
      × (e1.payload ≡ mask_from 0 xs)
      × (e2.payload ≡ xs)
      × (receive (suc f) p e2.frames
          ≡ record { proto = p; calls = mask_from 0 xs ∷ []; status = returned })
resend_masked f p stack again type xs d b pos small = (
  _,
  _,
  encode_frame_data stack xs type d pos,
  ap (λ n. encode_frame again (mask_from 0 xs) n type) (sym (length-mask_from 0 xs))
      ∙ encode_frame_data again (mask_from 0 xs) type d (omega (arith, length-mask_from 0 xs)),
  refl,
  mask_from-mask_from 0 xs b,
  receive_single f p again type (mask_from 0 xs) d (mask_from-IsBytes 0 xs)
      (omega (arith, length-mask_from 0 xs)) (omega (arith, length-mask_from 0 xs)),
)
