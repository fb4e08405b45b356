-- ===== src/Protocol/RoundTrip/Message.antt =====
-- Whole messages: from `encodeFrame` through the wire to the callback of `decodeFrame`.
use websocket_cpp.Base.{
  ℕ, zero, suc, ◌+◌, ◌-◌, ◌*◌, ◌/◌, ◌%◌, ◌<◌, ◌≤◌, ◌≡◌, refl, ap, sym, subst, ◌∙◌, ◌⊎◌, List, [],
  ◌∷◌, ◌++◌, length, take, drop, take-all, flatten, take-add, ok, ltb, lt→ltb, le→ltb,
  if◌then◌else◌, arith,
}
use websocket_cpp.Protocol.Encode.Size.{length-slices}
use websocket_cpp.Protocol.RoundTrip.Walk.{walk_slices}
use native.Mathlib.Decide.{dec_lt}
use websocket_cpp.Protocol.Head.{WsHead, OpCode}
use websocket_cpp.Protocol.Mask.{mask_from}
use websocket_cpp.Protocol.Mask.Laws.{IsBytes}
use websocket_cpp.Protocol.Encode.{
  Encoded, encode_frame, data_head, slices, slice_count, data_frames,
}
use websocket_cpp.Protocol.Encode.Shape.{IsData, encode_frame_data, data_frames_sliced}
use websocket_cpp.Protocol.Decode.{WsProtocol, max_framesize, decode_loop}
use websocket_cpp.Protocol.Decode.Loop.{decode_frame-eq}
use websocket_cpp.Protocol.RoundTrip.{Delivers, sliced, receive}
use websocket_cpp.Protocol.RoundTrip.Single.{receive_single}
use websocket_cpp.Protocol.RoundTrip.Sliced.{end_slice}

slice_count_le : (n : ℕ) → slice_count n ≤ n / 500 + 1
slice_count_le n = ground arith

-- Receiving a message in slices is running the loop over its slices.
pub sliced_wire :
    (stack : WsHead) (type : OpCode) (xs : List ℕ) (p : WsProtocol) (f l count rounds : ℕ)
    → 500 ≤ length xs
    → l ≡ length xs % 500
    → slice_count (length xs) ≡ count
    → count ≡ rounds
    → length xs ≤ 4000000
    → receive f p (data_frames (data_head stack type) (mask_from 0 xs) (length xs)) ≡ (
        let wire = flatten (slices rounds 0 count l (data_head stack type) (mask_from 0 xs)) in
        decode_loop f p wire (length wire))
sliced_wire stack type xs p f l count rounds big el counted ek small =
    ap (receive f p) frames ∙ decode_frame-eq f p wire (length wire) fits
  where
    h : WsHead
    h = data_head stack type

    wire : List ℕ
    wire = flatten (slices rounds 0 count l h (mask_from 0 xs))

    fits : length wire < max_framesize
    fits = omega (
      arith,
      length-slices rounds 0 count l h (mask_from 0 xs) (omega arith),
      slice_count_le (length xs),
    )

    frames : data_frames h (mask_from 0 xs) (length xs) ≡ slices rounds 0 count l h (mask_from 0 xs)
    frames =
        data_frames_sliced h (mask_from 0 xs) (length xs) big
        ∙ ap (λ c. slices c 0 c (length xs % 500) h (mask_from 0 xs)) counted
        ∙ ap (λ c. slices c 0 count (length xs % 500) h (mask_from 0 xs)) ek
        ∙ ap (λ j. slices rounds 0 count j h (mask_from 0 xs)) (sym el)

-- The payload as the callback of `decodeFrame` is given it, if its length is no multiple of 500.
abbrev received : List ℕ → List ℕ
received xs = if ltb (length xs) 500 then xs else sliced xs

pub receive-sliced :
    (stack : WsHead) (type : OpCode) (xs : List ℕ) (p : WsProtocol) (f : ℕ)
    → IsData type
    → IsBytes xs
    → 0 < length xs % 500
    → 500 ≤ length xs
    → length xs ≤ 4000000
    → length xs ≤ length p.frame_buff
    → length xs ≤ f
    → Delivers p
        (sliced xs ∷ [])
        (receive f p (data_frames (data_head stack type) (mask_from 0 xs) (length xs)))
receive-sliced stack type xs p f d b last_pos big small room fuel =
    rw
      (sliced_wire stack type xs p f (length xs % 500) (length xs / 500 + 1)
        (suc (suc (length xs / 500 - 1))) big refl (rw (lt→ltb 0 (length xs % 500) last_pos))
        (omega arith) small)
      (walk_slices xs b (length xs % 500) (length xs / 500 + 1) (omega arith)
        (λ p d. Delivers p (sliced xs ∷ []) d)
        (λ p q d e g. record {
          returns = g.returns;
          calls_made = g.calls_made;
          same_size = g.same_size ∙ e;
        })
        (λ f i h p s v pos e.
          let quotient : length xs / 500 ≡ i = omega arith in
          rw quotient
            (end_slice xs b (length xs % 500) last_pos (omega arith) f i h p s v pos (omega arith)))
        f (length xs / 500 - 1) (data_head stack type) type p d refl
        (record { rsv_zero = refl; masked = refl }) room (omega arith) (omega arith))

receive_message :
    (stack : WsHead) (type : OpCode) (xs : List ℕ) (p : WsProtocol) (f : ℕ)
    → IsData type
    → IsBytes xs
    → 0 < length xs % 500
    → length xs ≤ 4000000
    → length xs ≤ length p.frame_buff
    → length xs ≤ f
    → (e : Encoded) × (encode_frame stack xs (length xs) type ≡ ok e)
      × Delivers p (received xs ∷ []) (receive f p e.frames)
receive_message stack type xs p zero d b last_pos small room fuel = absurd (omega arith)
receive_message stack type xs p (suc f) d b last_pos small room fuel = (
  _,
  encode_frame_data stack xs type d (omega arith),
  elim (dec_lt (length xs) 500) [
    | yes a ↦
        rw (lt→ltb (length xs) 500 a, receive_single f p stack type xs d b (omega arith) a)
          (record { returns = refl; calls_made = refl; same_size = refl })
    | no a ↦
        rw (le→ltb (length xs) 500 (omega arith))
          (receive-sliced stack type xs p (suc f) d b last_pos (omega arith) small room fuel)
  ],
)

received-eq : (xs : List ℕ) → (length xs < 500) ⊎ (126 ≤ length xs % 500) → received xs ≡ xs
received-eq xs h = elim (dec_lt (length xs) 500) [
  | yes a ↦ rw (lt→ltb (length xs) 500 a)
  | no a ↦
      rw (le→ltb (length xs) 500 (omega arith), le→ltb (length xs % 500) 126 (omega arith)) whole
]
  where
    whole :
        take (length xs / 500 * 500) xs ++ take (length xs % 500) (drop (length xs / 500 * 500) xs)
        ≡ xs
    whole =
        sym (take-add (length xs / 500 * 500) (length xs % 500) xs)
        ∙ take-all (length xs / 500 * 500 + length xs % 500) xs (omega arith)

-- What is sent is received: a text or a blob of bytes that is shorter than 500, or whose last slice
-- has 126 bytes or more, makes, when its frames are received together, exactly one call of `func`,
-- with the payload; the decoder returns and keeps the size of its array. The payload is not empty and
-- has at most 4000000 bytes, the array has room for it, and the fuel is at least its length.
pub decode_frame-encode_frame :
    (stack : WsHead) (type : OpCode) (xs : List ℕ) (p : WsProtocol) (f : ℕ)
    → IsData type
    → IsBytes xs
    → 0 < length xs
    → (length xs < 500) ⊎ (126 ≤ length xs % 500)
    → length xs ≤ 4000000
    → length xs ≤ length p.frame_buff
    → length xs ≤ f
    → (e : Encoded) × (encode_frame stack xs (length xs) type ≡ ok e)
      × Delivers p (xs ∷ []) (receive f p e.frames)
decode_frame-encode_frame stack type xs p f d b pos last small room fuel =
    let (e, sent, got) = receive_message stack type xs p f d b (omega arith) small room fuel in
    (e, sent, subst (λ t. Delivers p (t ∷ []) (receive f p e.frames)) (received-eq xs last) got)
