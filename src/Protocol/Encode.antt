-- ===== src/Protocol/Encode.antt =====
-- `WSProtocol::encodeFrame` of websocket/WSProtocol.cpp. `func` is never NULL where it is called, so
-- a call of it is an entry of `frames`: the bytes that it is given.
pub mod Shape
pub mod Size
use websocket_cpp.Base.{
  ℕ, zero, suc, ◌+◌, ◌-◌, ◌*◌, ◌/◌, ◌%◌, ◌^◌, List, [], ◌∷◌, ◌++◌, take, drop, ltb, ◌==◌,
  if◌then◌else◌, Result, ok, ◌>>=◌,
}
use websocket_cpp.Protocol.Head.{
  WsHead, OpCode, continue_frame, text_frame, blob_frame, close_frame, ping_frame, pong_frame,
  opcode_value, head_bytes, le16,
}
use websocket_cpp.Protocol.Mask.{mask_code, compute_mask}

abbrev pub slice_size : ℕ
slice_size = 500

abbrev pub short_length : ℕ
short_length = 126

-- `unsigned mask = MASK_CODE; memcpy(…, &mask, 4);`
abbrev pub mask_bytes : List ℕ
mask_bytes =
    (mask_code % 2 ^ 8)
    ∷ (mask_code / 2 ^ 8 % 2 ^ 8)
    ∷ (mask_code / 2 ^ 16 % 2 ^ 8)
    ∷ (mask_code / 2 ^ 24 % 2 ^ 8)
    ∷ []

-- Header, mask and `n` bytes of the payload.
abbrev pub short_frame : WsHead → List ℕ → ℕ → List ℕ
short_frame h payload n = head_bytes h ++ (mask_bytes ++ take n payload)

-- Header, the length in two bytes, mask and `n` bytes of the payload.
abbrev pub long_frame : WsHead → List ℕ → ℕ → List ℕ
long_frame h payload n = head_bytes h ++ (le16 n ++ (mask_bytes ++ take n payload))

-- What is left of a call: the caller's array, which is masked in place, and the calls of `func`.
pub record Encoded : Type 0 where
  pub payload : List ℕ
  pub frames : List (List ℕ)

-- The last slice. A short one is taken from `payload + (i - 1) * SLICE_SIZE`, a longer one from
-- `payload + i * SLICE_SIZE`. The loop is here only with `0 < i`.
pub last_slice : WsHead → List ℕ → ℕ → ℕ → List ℕ
last_slice h payload lastlen i =
    if ltb lastlen 126
    then short_frame (record h { payload_len = lastlen }) (drop ((i - 1) * slice_size) payload)
        lastlen
    else long_frame h (drop (i * slice_size) payload) lastlen

-- `for (int i = 0; i < slice; i++)`, with `left` rounds left. The header keeps its fields from
-- round to round.
pub slices : ℕ → ℕ → ℕ → ℕ → WsHead → List ℕ → List (List ℕ)
slices zero i slice lastlen h payload = []
slices (suc left) i slice lastlen h payload =
    let h' = if i == 0 then record h { payload_len = short_length; fin = 0 } else record h {
      payload_len = short_length;
      fin = if ltb (i + 1) slice then 0 else 1;
      opcode = opcode_value continue_frame;
    } in
    let last = last_slice h' payload lastlen i ∷ [] in
    let more =
      long_frame h' (drop (i * slice_size) payload) slice_size
      ∷ slices left (i + 1) slice lastlen h' payload in
    if i == 0 then more else if ltb (i + 1) slice then more else last

-- `slice`: the number of rounds.
abbrev pub slice_count : ℕ → ℕ
slice_count len = if ltb 0 (len % slice_size) then len / slice_size + 1 else len / slice_size

-- `case eTextFrame: case eBlobFrame:` after `computeMask`, which each branch calls once.
pub data_frames : WsHead → List ℕ → ℕ → List (List ℕ)
unfolding slices last_slice
data_frames h payload len =
    if ltb len short_length
    then short_frame (record h { fin = 1; payload_len = len }) payload len ∷ []
    else if ltb len slice_size
    then long_frame (record h { fin = 1; payload_len = short_length }) payload len ∷ []
    else slices (slice_count len) 0 (slice_count len) (len % slice_size) h payload

-- `case ePingFrame: case ePongFrame:` and `case eCloseFrame:`. The length is cut to an `unsigned
-- char`, and by the header to 7 bits.
abbrev pub control_frame : WsHead → List ℕ → ℕ → List ℕ
control_frame h payload len = short_frame (record h { payload_len = len % 2 ^ 8 }) payload len

abbrev pub data_head : WsHead → OpCode → WsHead
data_head stack type = record stack { fin = 0; rsv = 0; mask = 1; opcode = opcode_value type }

abbrev pub ping_head : WsHead → OpCode → WsHead
ping_head stack type = record stack { fin = 1; mask = 1; opcode = opcode_value type }

-- `stack` is what the uninitialised local `header` holds. A type without a case does nothing.
unfoldable pub encode_frame : WsHead → List ℕ → ℕ → OpCode → Result Encoded
unfolding data_frames
encode_frame stack payload len text_frame = do
  masked ← compute_mask payload len
  ok (record { payload = masked; frames = data_frames (data_head stack text_frame) masked len })
encode_frame stack payload len blob_frame = do
  masked ← compute_mask payload len
  ok (record { payload = masked; frames = data_frames (data_head stack blob_frame) masked len })
encode_frame stack payload len ping_frame = do
  masked ← compute_mask payload len
  ok (record {
    payload = masked;
    frames = control_frame (ping_head stack ping_frame) masked len ∷ [];
  })
encode_frame stack payload len pong_frame = do
  masked ← compute_mask payload len
  ok (record {
    payload = masked;
    frames = control_frame (ping_head stack pong_frame) masked len ∷ [];
  })
encode_frame stack payload len close_frame = do
  masked ← compute_mask payload len
  ok (record {
    payload = masked;
    frames =
        control_frame (record stack { fin = 1; opcode = opcode_value close_frame }) masked len ∷ [];
  })
encode_frame stack payload len continue_frame = ok (record { payload = payload; frames = [] })
