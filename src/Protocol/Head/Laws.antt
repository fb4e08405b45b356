-- ===== src/Protocol/Head/Laws.antt =====
-- Headers and lengths written to the wire and read back.
use websocket_cpp.Base.{ℕ, ◌^◌, ◌<◌, ◌≡◌, ◌++◌, List, [], ◌∷◌, ok, arith}
use websocket_cpp.Protocol.Head.{WsHead, head_bytes, head_of, read_head, le16, read16}

-- Every field fits its bits.
pub record IsHead (h : WsHead) : Type 0 where
  pub fin_fits : h.fin < 2
  pub rsv_fits : h.rsv < 8
  pub opcode_fits : h.opcode < 16
  pub mask_fits : h.mask < 2
  pub len_fits : h.payload_len < 128

-- A header whose fields fit their bits is read back from its two bytes, whatever follows them.
pub read_head-head_bytes :
    (h : WsHead) (r : List ℕ) → IsHead h → read_head (head_bytes h ++ r) ≡ ok h
read_head-head_bytes h r v = ground arith

-- Two bytes are written again as they were read.
pub head_bytes-head_of :
    (b0 b1 : ℕ) → b0 < 256 → b1 < 256 → head_bytes (head_of b0 b1) ≡ b0 ∷ b1 ∷ []
head_bytes-head_of b0 b1 h0 h1 = ground arith

pub read16-le16 : (n : ℕ) (r : List ℕ) → n < 2 ^ 16 → read16 (le16 n ++ r) ≡ ok n
read16-le16 n r h = ground arith
