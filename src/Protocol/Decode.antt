-- ===== src/Protocol/Decode.antt =====
-- `WSProtocol` and `WSProtocol::decodeFrame` of websocket/WSProtocol.cpp. A pointer into the received
-- bytes is the list of what lies from there on; a read past its end is a fault.
pub mod Rounds
pub mod Loop
pub mod Parts
pub mod Append
pub mod Ends
use websocket_cpp.Base.{
  ℕ, zero, suc, ◌+◌, ◌-◌, ◌*◌, List, [], ◌∷◌, ◌++◌, ◌||◌, Option, none, some, map, length, take,
  drop, ltb, leb, ◌==◌, if◌then◌else◌, Failure, Result, ok, err, aborted, ◌>>=◌, ◌>>◌, assert,
  in_range,
}
use websocket_cpp.Protocol.Head.{
  WsHead, read_head, read16, opcode_value, continue_frame, text_frame, blob_frame,
}
use websocket_cpp.Protocol.Mask.{compute_un_mask}
use websocket_cpp.Protocol.Encode.{short_length}

abbrev pub max_framesize : ℕ
max_framesize = 1024 * 1024 * 4

-- The state of the class: the array that fragments are gathered in, and how much of it is filled.
pub record WsProtocol : Type 0 where
  pub frame_buff : List ℕ
  pub frame_pos : ℕ

-- `WSProtocol::WSProtocol()`. What `new` allocates is not initialised: `heap` is what lies there.
unfoldable pub new_protocol : List ℕ → WsProtocol
new_protocol heap = record { frame_buff = take max_framesize heap; frame_pos = 0 }

-- The bytes that `func(frameBuff_, framePos_, context)` is given.
abbrev pub gathered : WsProtocol → List ℕ
gathered p = take p.frame_pos p.frame_buff

-- `memset(frameBuff_, 0, MAX_FRAMESIZE); framePos_ = 0;`
pub clear_frame : WsProtocol → WsProtocol
clear_frame p = record { frame_buff = map (λ _. 0) p.frame_buff; frame_pos = 0 }

-- `memcpy(frameBuff_ + framePos_, payl, payll); framePos_ += payll;`
pub append_frame : WsProtocol → List ℕ → Result WsProtocol
append_frame p bytes = do
  in_range (leb (p.frame_pos + length bytes) (length p.frame_buff))
  ok (record {
    frame_buff =
        take p.frame_pos p.frame_buff ++ (bytes ++ drop (p.frame_pos + length bytes) p.frame_buff);
    frame_pos = p.frame_pos + length bytes;
  })

-- `payl`, `payll` and how far `data` is advanced.
pub record Part : Type 0 where
  pub payl : Option (List ℕ)
  pub payll : ℕ
  pub advance : ℕ

-- The two length formats of a last frame. For a `PayloadLen` of 127 `payl` stays NULL, `payll` 0,
-- and `data` where it is.
pub locate : WsHead → List ℕ → Result Part
locate h mem =
    if ltb h.payload_len short_length
    then ok
        (record { payl = some (drop 6 mem); payll = h.payload_len; advance = h.payload_len + 6 })
    else if h.payload_len == short_length
    then (do
      n ← read16 (drop 2 mem)
      ok (record { payl = some (drop 8 mem); payll = n; advance = n + 8 }))
    else ok (record { payl = none; payll = 0; advance = 0 })

-- `if (header.mask == 1) computeUnMask(payl, payll);`, and then the read of `payll` bytes at `payl`.
-- `computeUnMask` asserts that its pointer is not NULL.
pub fetch : WsHead → Option (List ℕ) → ℕ → Result (List ℕ)
fetch h none n = if h.mask == 1 then err aborted else ok []
fetch h (some payl) n =
    if h.mask == 1
    then (do bytes ← compute_un_mask payl n; ok (take n bytes))
    else (do in_range (leb n (length payl)); ok (take n payl))

-- One round of the loop: the new state, what `func` is called with, `data` and `len`. The source's
-- `len` may fall below 0, which it treats as 0.
pub record Turn : Type 0 where
  pub proto : WsProtocol
  pub calls : List (List ℕ)
  pub mem : List ℕ
  pub len : ℕ

-- A last fragment joins what was gathered, and the whole goes to `func`; any other frame goes there
-- by itself.
pub deliver : WsHead → WsProtocol → List ℕ → Result (WsProtocol × List ℕ)
deliver h p bytes =
    if h.opcode == opcode_value continue_frame
    then (append_frame p bytes >>= λ q. ok (q, gathered q))
    else ok (p, bytes)

-- `header.FIN == 1`
pub last_frame : WsHead → WsProtocol → List ℕ → ℕ → Result Turn
unfolding locate fetch deliver append_frame
last_frame h p mem len = do
  part ← locate h mem
  bytes ← fetch h part.payl part.payll
  (q, call) ← deliver h p bytes
  ok (record {
    proto = q;
    calls = call ∷ [];
    mem = drop part.advance mem;
    len = len - part.advance;
  })

-- The first fragment of a message clears what was gathered.
abbrev pub begin_frame : WsHead → WsProtocol → WsProtocol
begin_frame h p =
    if h.opcode == opcode_value text_frame || h.opcode == opcode_value blob_frame
    then clear_frame p
    else p

-- `header.FIN == 0`. The mask of the frame is read, and not used.
pub fragment : WsHead → WsProtocol → List ℕ → ℕ → Result Turn
unfolding fetch append_frame clear_frame
fragment h p mem len = do
  assert (h.payload_len == short_length)
  n ← read16 (drop 2 mem)
  in_range (leb 8 (length mem))
  bytes ← fetch h (some (drop 8 mem)) n
  q ← append_frame (begin_frame h p) bytes
  ok (record { proto = q; calls = []; mem = drop (n + 8) mem; len = len - (n + 8) })

pub round : WsProtocol → List ℕ → ℕ → Result Turn
unfolding last_frame fragment
round p mem len = do
  h ← read_head mem
  if h.fin == 1 then last_frame h p mem len else fragment h p mem len

-- How `decodeFrame` ends: it returns, it fails, or the fuel is spent with the loop still running.
pub data Status : Type 0 where
  returned running : Status
  failed : Failure → Status

pub record Decoded : Type 0 where
  pub proto : WsProtocol
  pub calls : List (List ℕ)
  pub status : Status

abbrev pub prepend : List (List ℕ) → Decoded → Decoded
prepend cs d = record d { calls = cs ++ d.calls }

-- `do … while (true)`, with `break` when `len <= 0`.
pub decode_loop : ℕ → WsProtocol → List ℕ → ℕ → Decoded
decode_loop zero p mem len = record { proto = p; calls = []; status = running }
decode_loop (suc fuel) p mem len = elim (round p mem len) [
  | err e ↦ record { proto = p; calls = []; status = failed e }
  | ok t ↦
      let rest = decode_loop fuel t.proto t.mem t.len in
      let stop : Decoded = record { proto = t.proto; calls = t.calls; status = returned } in
      if t.len == 0 then stop else prepend t.calls rest
]

-- `len` bytes from `data` on, in an array `mem` that may be longer.
unfoldable pub decode_frame : ℕ → WsProtocol → List ℕ → ℕ → Decoded
unfolding decode_loop round
decode_frame fuel p mem len =
    if ltb len max_framesize
    then decode_loop fuel p mem len
    else record { proto = p; calls = []; status = failed aborted }
