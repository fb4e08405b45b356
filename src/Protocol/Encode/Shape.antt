-- ===== src/Protocol/Encode/Shape.antt =====
-- The frames that `encodeFrame` sends for a text or a blob, branch by branch.
use websocket_cpp.Base.{
  ℕ, zero, suc, ◌+◌, ◌-◌, ◌*◌, ◌%◌, ◌<◌, ◌≤◌, ◌≡◌, refl, List, [], ◌∷◌, length, drop, ◌==◌, lt→ltb,
  le→ltb, ok, arith, Bool, true, ◌^◌, false, if◌then◌else◌,
}
use websocket_cpp.Protocol.Head.{
  WsHead, OpCode, continue_frame, text_frame, blob_frame, close_frame, ping_frame, pong_frame,
  opcode_value,
}
use websocket_cpp.Protocol.Mask.{mask_from}
use websocket_cpp.Protocol.Mask.Laws.{compute_mask_lem}
use websocket_cpp.Protocol.Encode.{
  short_frame, long_frame, last_slice, slices, slice_count, data_frames, data_head, encode_frame,
}

-- The types that `encodeFrame` cuts into slices.
abbrev pub IsData : OpCode → Type 0
IsData text_frame = Unit
IsData blob_frame = Unit
IsData _ = ⊥

-- A non-empty text or blob is masked in place, and its frames are cut from the masked bytes.
pub encode_frame_data :
    (stack : WsHead) (xs : List ℕ) (type : OpCode)
    → IsData type
    → 0 < length xs
    → encode_frame stack xs (length xs) type
      ≡ ok (record {
        payload = mask_from 0 xs;
        frames = data_frames (data_head stack type) (mask_from 0 xs) (length xs);
      })
unfolding encode_frame
encode_frame_data stack xs continue_frame d h = absurd d
encode_frame_data stack xs text_frame d h = rw (compute_mask_lem xs h)
encode_frame_data stack xs blob_frame d h = rw (compute_mask_lem xs h)
encode_frame_data stack xs close_frame d h = absurd d
encode_frame_data stack xs ping_frame d h = absurd d
encode_frame_data stack xs pong_frame d h = absurd d

module _ (h : WsHead) (payload : List ℕ) (len : ℕ) where
  pub data_frames_short :
      len < 126
      → data_frames h payload len
        ≡ short_frame (record h { fin = 1; payload_len = len }) payload len ∷ []
  unfolding data_frames
  data_frames_short a = rw (lt→ltb len 126 a)

  pub data_frames_long :
      126 ≤ len
      → len < 500
      → data_frames h payload len
        ≡ long_frame (record h { fin = 1; payload_len = 126 }) payload len ∷ []
  unfolding data_frames
  data_frames_long a b = rw (le→ltb len 126 a, lt→ltb len 500 b)

  pub data_frames_sliced :
      500 ≤ len
      → data_frames h payload len
        ≡ slices (slice_count len) 0 (slice_count len) (len % 500) h payload
  unfolding data_frames
  data_frames_sliced a = rw (le→ltb len 126 (omega arith), le→ltb len 500 a)

nonzero : (i : ℕ) → 0 < i → (i == 0) ≡ false
nonzero i h = ground arith

-- The headers of the first slice, of a middle one and of the last.
abbrev pub first_head : WsHead → WsHead
first_head h = record h { payload_len = 126; fin = 0 }

abbrev pub middle_head : WsHead → WsHead
middle_head h = record h { payload_len = 126; fin = 0; opcode = 0 }

abbrev pub end_head : WsHead → WsHead
end_head h = record h { payload_len = 126; fin = 1; opcode = 0 }

module _ (left slice lastlen : ℕ) (h : WsHead) (payload : List ℕ) where
  pub slices_first :
      slices (suc left) 0 slice lastlen h payload
      ≡ long_frame (first_head h) (drop (0 * 500) payload) 500
        ∷ slices left (0 + 1) slice lastlen (first_head h) payload
  unfolding slices
  slices_first = refl

  pub slices-zero : (i : ℕ) → slices zero i slice lastlen h payload ≡ []
  unfolding slices
  slices-zero i = refl

  pub slices_middle :
      (i : ℕ)
      → 0 < i
      → i + 1 < slice
      → slices (suc left) i slice lastlen h payload
        ≡ long_frame (middle_head h) (drop (i * 500) payload) 500
          ∷ slices left (i + 1) slice lastlen (middle_head h) payload
  unfolding slices
  slices_middle i a b = rw (nonzero i a, lt→ltb (i + 1) slice b)

  pub slices_last :
      (i : ℕ)
      → 0 < i
      → slice ≤ i + 1
      → slices (suc left) i slice lastlen h payload ≡ last_slice (end_head h) payload lastlen i ∷ []
  unfolding slices
  slices_last i a b = rw (nonzero i a, le→ltb (i + 1) slice b)

module _ (h : WsHead) (payload : List ℕ) (lastlen i : ℕ) where
  pub last_slice_short :
      lastlen < 126
      → last_slice h payload lastlen i
        ≡ short_frame (record h { payload_len = lastlen }) (drop ((i - 1) * 500) payload) lastlen
  unfolding last_slice
  last_slice_short a = rw (lt→ltb lastlen 126 a)

  pub last_slice_long :
      126 ≤ lastlen → last_slice h payload lastlen i ≡ long_frame h (drop (i * 500) payload) lastlen
  unfolding last_slice
  last_slice_long a = rw (le→ltb lastlen 126 a)

abbrev pub IsControl : OpCode → Type 0
IsControl ping_frame = Unit
IsControl pong_frame = Unit
IsControl close_frame = Unit
IsControl _ = ⊥

-- A close frame leaves the mask bit as it lies in memory.
abbrev pub sets_mask : OpCode → Bool
sets_mask close_frame = false
sets_mask _ = true

-- The header of a control frame of `n` bytes.
abbrev pub control_head : WsHead → OpCode → ℕ → WsHead
control_head stack type n = record stack {
  fin = 1;
  opcode = opcode_value type;
  mask = if sets_mask type then 1 else stack.mask;
  payload_len = n % 2 ^ 8;
}

pub encode_frame_control :
    (stack : WsHead) (xs : List ℕ) (type : OpCode)
    → IsControl type
    → 0 < length xs
    → encode_frame stack xs (length xs) type
      ≡ ok (record {
        payload = mask_from 0 xs;
        frames =
            short_frame (control_head stack type (length xs)) (mask_from 0 xs) (length xs) ∷ [];
      })
unfolding encode_frame
encode_frame_control stack xs continue_frame d h = absurd d
encode_frame_control stack xs text_frame d h = absurd d
encode_frame_control stack xs blob_frame d h = absurd d
encode_frame_control stack xs close_frame d h = rw (compute_mask_lem xs h)
encode_frame_control stack xs ping_frame d h = rw (compute_mask_lem xs h)
encode_frame_control stack xs pong_frame d h = rw (compute_mask_lem xs h)
