-- ===== src/Protocol/RoundTrip/Truncated.antt =====
-- A frame of which only a part has arrived.
use websocket_cpp.Base.{
  ◌-◌, ◌^◌, ◌≤◌, ◌⊎◌, inl, inr, ◌∷◌, length-append, err, ℕ, suc, ◌+◌, ◌<◌, ◌≡◌, refl, ap, ◌∙◌, List,
  [], ◌++◌, length, take, length-take, take-all, flatten, ok, faulted, arith,
}
use websocket_cpp.Protocol.Head.{WsHead, OpCode}
use websocket_cpp.Protocol.Head.Laws.{IsHead}
use websocket_cpp.Protocol.Mask.{mask_from}
use websocket_cpp.Protocol.Mask.Laws.{length-mask_from}
use websocket_cpp.Protocol.Encode.{Encoded, encode_frame, data_head, mask_bytes}
use websocket_cpp.Protocol.Encode.Shape.{
  IsData, encode_frame_data, data_frames_short, data_frames_long,
}
use websocket_cpp.Protocol.Decode.{WsProtocol, failed, decode_frame, round}
use websocket_cpp.Protocol.Decode.Rounds.{short_wire, long_wire, round_missing, round_missing_long}
use websocket_cpp.Protocol.Decode.Loop.{decode_frame-eq, decode_loop-err}
use websocket_cpp.Protocol.RoundTrip.Single.{data_head-IsHead}

-- What a callback has when the first bytes of a frame have arrived: these and the 0 that `c_str()` ends
-- them with.
abbrev pub arrived : ℕ → List ℕ → List ℕ
arrived k wire = take k wire ++ (0 ∷ [])

arrived_short :
    (p : WsProtocol) (h : WsHead) (ms : List ℕ) (m len : ℕ)
    → IsHead h
    → h.fin ≡ 1
    → h.mask ≡ 1
    → h.payload_len < 126
    → 0 < h.payload_len
    → m + 1 < h.payload_len + 4
    → round p (arrived (suc (suc m)) (short_wire h ms ++ [])) len ≡ err faulted
unfolding take
arrived_short p h ms m len v f b small pos short =
    let rest = take m (mask_bytes ++ ms ++ []) in
    round_missing p h (rest ++ (0 ∷ [])) len v f b small pos
      (omega (arith, length-append rest (0 ∷ []), length-take m (mask_bytes ++ ms ++ [])))

arrived_long :
    (p : WsProtocol) (h : WsHead) (n : ℕ) (ms : List ℕ) (m len : ℕ)
    → IsHead h
    → h.fin ≡ 1
    → h.mask ≡ 1
    → h.payload_len ≡ 126
    → 0 < n
    → n < 2 ^ 16
    → m + 1 < n + 4
    → round p (arrived (suc (suc (suc (suc m)))) (long_wire h n ms ++ [])) len ≡ err faulted
unfolding take
arrived_long p h n ms m len v f b long pos small short =
    let rest = take m (mask_bytes ++ ms ++ []) in
    round_missing_long p h n (rest ++ (0 ∷ [])) len v f b long pos small
      (omega (arith, length-append rest (0 ∷ []), length-take m (mask_bytes ++ ms ++ [])))

-- How many bytes of the frame of `n` bytes of payload have arrived: the length is there, and two bytes or
-- more of the end are not.
abbrev pub InPart : ℕ → ℕ → Type 0
InPart n k = ((n < 126) × (2 ≤ k) × (k + 1 < n + 6)) ⊎ ((126 ≤ n) × (4 ≤ k) × (k + 1 < n + 8))

-- The memory that a callback hands to `decodeFrame` holds the first `k` bytes of the only frame of a text
-- or a blob of 1 to 499 bytes, and a 0 after them. If the length of the payload is among these `k` bytes,
-- and two bytes or more of the frame are missing, `decodeFrame` reads past the end of that memory. It
-- calls nothing before that.
pub truncated_faults :
    (f : ℕ) (p : WsProtocol) (stack : WsHead) (type : OpCode) (xs : List ℕ) (k : ℕ)
    → IsData type
    → 0 < length xs
    → length xs < 500
    → InPart (length xs) k
    → (e : Encoded) × (encode_frame stack xs (length xs) type ≡ ok e)
      × (decode_frame (suc f) p (arrived k (flatten e.frames)) k
          ≡ record { proto = p; calls = []; status = failed faulted })
unfolding flatten
truncated_faults f p stack type xs k d pos single (inl (small, two, short)) =
    let h : WsHead = record (data_head stack type) { fin = 1; payload_len = length xs } in
    let m : ℕ = k - 2 in
    let whole : k ≡ suc (suc m) = omega arith in
    (
      _,
      encode_frame_data stack xs type d pos,
      rw
          (
            data_frames_short (data_head stack type) (mask_from 0 xs) (length xs) small,
            take-all (length xs) (mask_from 0 xs) (omega (arith, length-mask_from 0 xs)),
          )
          (decode_frame-eq (suc f) p (arrived k (short_wire h (mask_from 0 xs) ++ [])) k
              (omega arith)
            ∙ decode_loop-err f p _ k faulted (
                ap (λ j. round p (arrived j (short_wire h (mask_from 0 xs) ++ [])) k) whole
                ∙ arrived_short p h (mask_from 0 xs) m k
                    (data_head-IsHead stack type 1 (length xs) (omega arith) (omega arith)) refl
                    refl small pos (omega arith))),
    )
truncated_faults f p stack type xs k d pos single (inr (large, four, short)) =
    let h : WsHead = record (data_head stack type) { fin = 1; payload_len = 126 } in
    let m : ℕ = k - 4 in
    let whole : k ≡ suc (suc (suc (suc m))) = omega arith in
    (
      _,
      encode_frame_data stack xs type d pos,
      rw
          (
            data_frames_long (data_head stack type) (mask_from 0 xs) (length xs) large single,
            take-all (length xs) (mask_from 0 xs) (omega (arith, length-mask_from 0 xs)),
          )
          (decode_frame-eq (suc f) p (arrived k (long_wire h (length xs) (mask_from 0 xs) ++ [])) k
              (omega arith)
            ∙ decode_loop-err f p _ k faulted (
                ap (λ j. round p (arrived j (long_wire h (length xs) (mask_from 0 xs) ++ [])) k)
                  whole
                ∙ arrived_long p h (length xs) (mask_from 0 xs) m k
                    (data_head-IsHead stack type 1 126 (omega arith) (omega arith)) refl refl refl
                    pos (omega arith) (omega arith))),
    )
