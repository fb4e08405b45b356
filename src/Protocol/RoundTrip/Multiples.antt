-- ===== src/Protocol/RoundTrip/Multiples.antt =====
-- Messages whose length is a multiple of 500.
use native.Mathlib.Decide.{ℕ_discrete}
use websocket_cpp.Base.{
  ℕ, zero, suc, ◌+◌, ◌-◌, ◌*◌, ◌/◌, ◌%◌, ◌≤◌, ◌≡◌, ◌≢◌, false, true, refl, sym, ◌∙◌, List, [], ◌++◌,
  length, take, drop, flatten, length-append, length-take, ok, aborted, le→ltb, if◌then◌else◌, ◌==◌,
  arith,
}
use websocket_cpp.Protocol.Head.{WsHead, OpCode}
use websocket_cpp.Protocol.Mask.{mask_from}
use websocket_cpp.Protocol.Mask.Laws.{IsBytes}
use websocket_cpp.Protocol.Encode.{
  Encoded, encode_frame, data_head, data_frames, slices, slice_count, last_slice,
}
use websocket_cpp.Protocol.Encode.Shape.{
  IsData, encode_frame_data, last_slice_short, end_head, first_head, slices_first, slices-zero,
}
use websocket_cpp.Protocol.Decode.{
  WsProtocol, Decoded, Status, returned, failed, decode_loop, clear_frame,
}
use websocket_cpp.Protocol.Decode.Rounds.{short_wire, long_wire, round_empty, round_fragment}
use websocket_cpp.Protocol.Decode.Loop.{
  decode_loop-err, decode_loop-stop, append_frame-Appended, clear_frame_lem,
}
use websocket_cpp.Protocol.RoundTrip.{receive}
use websocket_cpp.Protocol.RoundTrip.Sliced.{IsSliceHead, unmask_piece, length_piece}
use websocket_cpp.Protocol.RoundTrip.Walk.{walk_slices, begin_data, first_IsHead}
use websocket_cpp.Protocol.RoundTrip.Message.{sliced_wire}

-- `func` was not called, and the run ended in this way.
abbrev pub Lost : Status → Decoded → Type 0
Lost how d = (d.calls ≡ []) × (d.status ≡ how)

-- The last slice is empty, and the receiver's assertion refuses it.
empty_end :
    (f i : ℕ) (h : WsHead) (m : List ℕ) (p : WsProtocol)
    → IsSliceHead h
    → Lost (failed aborted) (
        decode_loop
          (suc f)
          p
          (last_slice (end_head h) m 0 i ++ [])
          (length (last_slice (end_head h) m 0 i ++ [])))
empty_end f i h m p s =
    rw (last_slice_short (end_head h) m 0 i (omega arith), take_zero)
      (rw
        (decode_loop-err f p (short_wire h' [] ++ []) (length (short_wire h' [] ++ [])) aborted
          (round_empty p h' [] _ (omega arith) refl s.masked refl))
        (refl, refl))
  where
    h' : WsHead
    h' = record (end_head h) { payload_len = 0 }

    take_zero : take 0 (drop ((i - 1) * 500) m) ≡ []
    take_zero = unfold take in refl

-- One slice alone is gathered, and nothing follows it.
one_slice :
    (f : ℕ) (stack : WsHead) (type : OpCode) (xs : List ℕ) (p : WsProtocol)
    → IsData type
    → IsBytes xs
    → length xs ≡ 500
    → length xs ≤ length p.frame_buff
    → Lost returned (
        decode_loop
          (suc f)
          p
          (flatten (slices 1 0 1 0 (data_head stack type) (mask_from 0 xs)))
          (length (flatten (slices 1 0 1 0 (data_head stack type) (mask_from 0 xs)))))
unfolding flatten
one_slice f stack type xs p d b e room =
    let h = data_head stack type in
    let m = mask_from 0 xs in
    let ms = take 500 (drop (0 * 500) m) in
    let len_ms = length_piece 0 500 xs (omega arith) in
    let c = clear_frame_lem p in
    let (q, g) =
      append_frame-Appended (clear_frame p) (take 500 (drop (0 * 500) xs))
        (omega (arith, length-take 500 (drop (0 * 500) xs))) in
    let wire : List ℕ = long_wire (first_head h) 500 ms ++ [] in
    rw (slices_first 0 1 0 h m, slices-zero 0 1 0 (first_head h) m (0 + 1))
      (rw
        (decode_loop-stop f p wire (length wire)
          (record { proto = q; calls = []; mem = []; len = length wire - (500 + 8) })
          (round_fragment p q (first_head h) 500 ms [] (length wire)
            (first_IsHead h type d refl (record { rsv_zero = refl; masked = refl })) refl refl refl
            len_ms (omega arith) (omega arith)
            (rw (begin_data h type p d refl, unmask_piece 0 500 xs b) g.appended))
          (omega (arith, length-append ms [])))
        (refl, refl))

-- A text or a blob whose length is a multiple of 500 is lost: `func` is not called. The receiver of
-- 500 bytes returns and waits for more; that of a longer message aborts, by the assertion in
-- `computeUnMask`.
pub multiples-Lost :
    (stack : WsHead) (type : OpCode) (xs : List ℕ) (p : WsProtocol) (f : ℕ)
    → IsData type
    → IsBytes xs
    → 500 ≤ length xs
    → length xs % 500 ≡ 0
    → length xs ≤ 4000000
    → length xs ≤ length p.frame_buff
    → length xs ≤ f
    → (e : Encoded) × (encode_frame stack xs (length xs) type ≡ ok e)
      × Lost (if length xs == 500 then returned else failed aborted) (receive f p e.frames)
multiples-Lost stack type xs p zero d b big even small room fuel = absurd (omega arith)
multiples-Lost stack type xs p (suc f) d b big even small room fuel = (
  _,
  encode_frame_data stack xs type d (omega arith),
  elim (ℕ_discrete (length xs) 500) [
    | yes a ↦ alone a
    | no a ↦
        rw
          (
            off a,
            sliced_wire stack type xs p (suc f) 0 (length xs / 500)
                (suc (suc (length xs / 500 - 2))) big (sym even) counted (omega arith) small,
          )
          (walk_slices xs b 0 (length xs / 500) (omega arith) (λ p d. Lost (failed aborted) d)
            (λ p q d e g. g) (λ f i h p s v pos e. empty_end f i h (mask_from 0 xs) p s) (suc f)
            (length xs / 500 - 2) (data_head stack type) type p d refl
            (record { rsv_zero = refl; masked = refl }) room (omega arith) (omega arith))
  ],
)
  where
    counted : slice_count (length xs) ≡ length xs / 500
    counted = rw (le→ltb 0 (length xs % 500) (omega arith))

    off : length xs ≢ 500 → (length xs == 500) ≡ false
    off ne = ground arith

    on : length xs ≡ 500 → (length xs == 500) ≡ true
    on e = rw e

    alone :
        length xs ≡ 500
        → Lost
            (if length xs == 500 then returned else failed aborted)
            (receive (suc f) p (data_frames (data_head stack type) (mask_from 0 xs) (length xs)))
    alone a =
        rw
          (
            on a,
            sliced_wire stack type xs p (suc f) 0 1 1 big (sym even) (counted ∙ omega arith) refl
                small,
          )
          (one_slice f stack type xs p d b a room)
