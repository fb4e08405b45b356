-- ===== src/Protocol/RoundTrip.antt =====
-- What `decodeFrame` makes of the frames that `encodeFrame` sends, received as one piece of data.
pub mod Single
pub mod Behind
pub mod Sliced
pub mod Walk
pub mod Message
pub mod Tails
pub mod Control
pub mod Resend
pub mod Truncated
pub mod Multiples
use websocket_cpp.Base.{
  ℕ, ◌+◌, ◌-◌, ◌*◌, ◌/◌, ◌%◌, ◌≡◌, ◌≢◌, refl, List, [], ◌∷◌, ◌++◌, length, take, drop, flatten, ltb,
  ◌==◌, if◌then◌else◌, ok, false, arith,
}
use websocket_cpp.Protocol.Head.{WsHead}
use websocket_cpp.Protocol.Encode.{slice_count}
use websocket_cpp.Protocol.Decode.{WsProtocol, Decoded, Status, returned, deliver, decode_frame}

-- `decodeFrame` returned after these calls of `func`, and the array for fragments has its size.
pub record Delivers (p : WsProtocol) (calls : List (List ℕ)) (d : Decoded) : Type 0 where
  pub returns : d.status ≡ returned
  pub calls_made : d.calls ≡ calls
  pub same_size : length d.proto.frame_buff ≡ length p.frame_buff

-- All frames of one `encodeFrame`, received together.
abbrev pub receive : ℕ → WsProtocol → List (List ℕ) → Decoded
receive fuel p frames = decode_frame fuel p (flatten frames) (length (flatten frames))

-- Where the last slice of `lastlen` bytes is taken from, as the `i`-th.
abbrev pub last_offset : ℕ → ℕ → ℕ
last_offset lastlen i = if ltb lastlen 126 then (i - 1) * 500 else i * 500

-- What comes in for a payload sent in slices: all full slices, then the last one.
abbrev pub sliced : List ℕ → List ℕ
sliced xs =
    let i = length xs / 500 in
    take (i * 500) xs ++ take (length xs % 500) (drop (last_offset (length xs % 500) i) xs)
