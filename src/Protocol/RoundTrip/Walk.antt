-- ===== src/Protocol/RoundTrip/Walk.antt =====
-- The loop of `decodeFrame` over the slices of a message, up to the last one.
use websocket_cpp.Base.{
  ℕ, zero, suc, ◌+◌, ◌-◌, ◌*◌, ◌<◌, ◌≤◌, ◌≡◌, refl, ap, sym, ◌∙◌, List, [], ◌++◌, length, take,
  drop, flatten, length-append, length-take, ok, arith,
}
use websocket_cpp.Protocol.Head.{
  WsHead, OpCode, continue_frame, text_frame, blob_frame, close_frame, ping_frame, pong_frame,
  opcode_value,
}
use websocket_cpp.Protocol.Head.Laws.{IsHead}
use websocket_cpp.Protocol.Mask.{mask_from}
use websocket_cpp.Protocol.Mask.Laws.{IsBytes}
use websocket_cpp.Protocol.Encode.{last_slice, slices}
use websocket_cpp.Protocol.Encode.Shape.{
  IsData, first_head, middle_head, end_head, slices_first, slices_middle, slices_last,
}
use websocket_cpp.Protocol.Decode.{
  WsProtocol, Decoded, round, decode_loop, clear_frame, begin_frame,
}
use websocket_cpp.Protocol.Decode.Rounds.{long_wire, round_fragment}
use websocket_cpp.Protocol.Decode.Loop.{decode_loop-more, append_frame-Appended, clear_frame_lem}
use websocket_cpp.Protocol.RoundTrip.Sliced.{
  IsSliceHead, Holds, Holds-suc, unmask_piece, length_piece, nonempty_slices,
}

-- What is left of the data after one of several slices.
after_slice :
    (f : ℕ) (p q : WsProtocol) (h : WsHead) (ms rest : List ℕ)
    → round p (long_wire h 500 ms ++ rest) (length (long_wire h 500 ms ++ rest))
      ≡ ok (record {
        proto = q;
        calls = [];
        mem = rest;
        len = length (long_wire h 500 ms ++ rest) - (500 + 8);
      })
    → length ms ≡ 500
    → 0 < length rest
    → decode_loop (suc f) p (long_wire h 500 ms ++ rest) (length (long_wire h 500 ms ++ rest))
      ≡ decode_loop f q rest (length rest)
after_slice f p q h ms rest r l pos =
    decode_loop-more f p (long_wire h 500 ms ++ rest) (length (long_wire h 500 ms ++ rest)) _ r
      (omega (arith, length-append ms rest))
    ∙ ap (decode_loop f q rest) left
  where
    left : length (long_wire h 500 ms ++ rest) - (500 + 8) ≡ length rest
    left = omega (arith, length-append ms rest)

pub begin_data :
    (h : WsHead) (type : OpCode) (p : WsProtocol)
    → IsData type
    → h.opcode ≡ opcode_value type
    → begin_frame (first_head h) p ≡ clear_frame p
begin_data h continue_frame p d o = absurd d
begin_data h text_frame p d o = rw o
begin_data h blob_frame p d o = rw o
begin_data h close_frame p d o = absurd d
begin_data h ping_frame p d o = absurd d
begin_data h pong_frame p d o = absurd d

pub first_IsHead :
    (h : WsHead) (type : OpCode)
    → IsData type
    → h.opcode ≡ opcode_value type
    → IsSliceHead h
    → IsHead (first_head h)
first_IsHead h continue_frame d o s = absurd d
first_IsHead h text_frame d o s = omega arith
first_IsHead h blob_frame d o s = omega arith
first_IsHead h close_frame d o s = absurd d
first_IsHead h ping_frame d o s = absurd d
first_IsHead h pong_frame d o s = absurd d

-- `P` speaks of a run from a state; what the last slice comes to is `last`.
module _ (xs : List ℕ) (b : IsBytes xs) (l count : ℕ) (bound : (count - 1) * 500 ≤ length xs)
    (P : WsProtocol → Decoded → Type 0)
    (keep : (p q : WsProtocol) (d : Decoded)
      → length q.frame_buff ≡ length p.frame_buff
      → P q d
      → P p d)
    (last : (f i : ℕ) (h : WsHead) (p : WsProtocol)
      → IsSliceHead h
      → Holds xs i p
      → 0 < i
      → i + 1 ≡ count
      → P p (
          decode_loop
            (suc f)
            p
            (last_slice (end_head h) (mask_from 0 xs) l i ++ [])
            (length (last_slice (end_head h) (mask_from 0 xs) l i ++ [])))) where
  abbrev masked : List ℕ
  masked = mask_from 0 xs

  -- From the second slice on.
  walk_rest :
      (left f i : ℕ) (h : WsHead) (p : WsProtocol)
      → IsSliceHead h
      → Holds xs i p
      → 0 < i
      → i + suc left ≡ count
      → left < f
      → P p (
          decode_loop f p
            (flatten (slices (suc left) i count l h masked))
            (length (flatten (slices (suc left) i count l h masked))))
  unfolding flatten
  walk_rest left zero i h p s v pos e m = absurd (omega arith)
  walk_rest zero (suc f) i h p s v pos e m =
      rw (slices_last zero count l h masked i pos (omega arith)) (last f i h p s v pos e)
  walk_rest (suc left) (suc f) i h p s v pos e m =
      let fits : i * 500 + 500 ≤ length xs = omega arith in
      let len_ms = length_piece i 500 xs fits in
      let (q, g) =
        append_frame-Appended p (take 500 (drop (i * 500) xs))
          (omega (arith, length-take 500 (drop (i * 500) xs))) in
      let rest = flatten (slices (suc left) (i + 1) count l (middle_head h) masked) in
      rw
        (
          slices_middle (suc left) count l h masked i pos (omega arith),
          after_slice f p q (middle_head h) (take 500 (drop (i * 500) masked)) rest
              (round_fragment p q (middle_head h) 500 (take 500 (drop (i * 500) masked)) rest _
                (omega arith) refl s.masked refl len_ms (omega arith) (omega arith)
                (rw (unmask_piece i 500 xs b) g.appended))
              len_ms (nonempty_slices left (i + 1) count l (middle_head h) masked (omega arith)),
        )
        (keep p q _ g.same_size (
          walk_rest left f (i + 1) (middle_head h) q (omega arith) (Holds-suc v fits g)
            (omega arith) (omega arith) (omega arith)))

  -- The first slice clears the array; the rest is `walk_rest`.
  pub walk_slices :
      (f k : ℕ) (h : WsHead) (type : OpCode) (p : WsProtocol)
      → IsData type
      → h.opcode ≡ opcode_value type
      → IsSliceHead h
      → length xs ≤ length p.frame_buff
      → count ≡ suc (suc k)
      → count < f
      → P p (
          decode_loop f p
            (flatten (slices (suc (suc k)) 0 count l h masked))
            (length (flatten (slices (suc (suc k)) 0 count l h masked))))
  unfolding flatten
  walk_slices zero k h type p d o s room e m = absurd (omega arith)
  walk_slices (suc f) k h type p d o s room e m =
      let fits : 0 * 500 + 500 ≤ length xs = omega arith in
      let len_ms = length_piece 0 500 xs fits in
      let c = clear_frame_lem p in
      let empty : Holds xs 0 (clear_frame p) = record {
        filled = omega arith;
        room = omega arith;
        contents = c.2 ∙ sym (unfold take in refl);
      } in
      let (q, g) =
        append_frame-Appended (clear_frame p) (take 500 (drop (0 * 500) xs))
          (omega (arith, length-take 500 (drop (0 * 500) xs))) in
      let rest = flatten (slices (suc k) (0 + 1) count l (first_head h) masked) in
      rw
        (
          slices_first (suc k) count l h masked,
          after_slice f p q (first_head h) (take 500 (drop (0 * 500) masked)) rest
              (round_fragment p q (first_head h) 500 (take 500 (drop (0 * 500) masked)) rest _
                (first_IsHead h type d o s) refl s.masked refl len_ms (omega arith) (omega arith)
                (rw (begin_data h type p d o, unmask_piece 0 500 xs b) g.appended))
              len_ms (nonempty_slices k (0 + 1) count l (first_head h) masked (omega arith)),
        )
        (keep p q _ (g.same_size ∙ c.1) (
          walk_rest k f (0 + 1) (first_head h) q (omega arith) (Holds-suc empty fits g)
            (omega arith) (omega arith) (omega arith)))
