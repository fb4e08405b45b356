-- ===== src/Protocol/Head.antt =====
-- `WSHead` and `OpCode` of websocket/WSProtocol.h, and the bytes that `memcpy` of a header moves.
-- The compiler of the build (GCC, x86) gives bit-fields the low bits of a byte first.
pub mod Laws
use websocket_cpp.Base.{ℕ, ◌+◌, ◌*◌, ◌/◌, ◌%◌, ◌^◌, List, [], ◌∷◌, Result, ok, err, faulted}

pub record WsHead : Type 0 where
  pub fin : ℕ  -- 1 bit
  pub rsv : ℕ  -- 3 bits
  pub opcode : ℕ  -- 4 bits
  pub mask : ℕ  -- 1 bit
  pub payload_len : ℕ  -- 7 bits

pub data OpCode : Type 0 where
  continue_frame text_frame blob_frame close_frame ping_frame pong_frame : OpCode

abbrev pub opcode_value : OpCode → ℕ
opcode_value continue_frame = 0x0
opcode_value text_frame = 0x1
opcode_value blob_frame = 0x2
opcode_value close_frame = 0x8
opcode_value ping_frame = 0x9
opcode_value pong_frame = 0xA

-- The two bytes of a header. A store into a bit-field keeps the bits that fit.
abbrev pub head_bytes : WsHead → List ℕ
head_bytes h =
    (h.fin % 2 + 2 * (h.rsv % 8) + 16 * (h.opcode % 16))
    ∷ (h.mask % 2 + 2 * (h.payload_len % 128))
    ∷ []

-- The header that two bytes make.
abbrev pub head_of : ℕ → ℕ → WsHead
head_of b0 b1 = record {
  fin = b0 % 2;
  rsv = b0 / 2 % 8;
  opcode = b0 / 16 % 16;
  mask = b1 % 2;
  payload_len = b1 / 2 % 128;
}

-- `memcpy(&header, data, sizeof(WSHead))`
abbrev pub read_head : List ℕ → Result WsHead
read_head [] = err faulted
read_head (b0 ∷ []) = err faulted
read_head (b0 ∷ b1 ∷ r) = ok (head_of b0 b1)

-- An `unsigned short` as it lies in memory, and the read of one `*(unsigned short*)p`.
abbrev pub le16 : ℕ → List ℕ
le16 n = (n % 2 ^ 8) ∷ (n / 2 ^ 8 % 2 ^ 8) ∷ []

abbrev pub read16 : List ℕ → Result ℕ
read16 [] = err faulted
read16 (b0 ∷ []) = err faulted
read16 (b0 ∷ b1 ∷ r) = ok (b0 + b1 * 2 ^ 8)
