-- ===== src/Protocol/Mask.antt =====
-- `computeMask` and `computeUnMask` of websocket/WSProtocol.cpp. Their `printf` lines are left out.
pub mod Laws
pub mod Slices
use websocket_cpp.Base.{
  ℕ, ◌+◌, ◌/◌, ◌%◌, ◌^◌, List, [], ◌∷◌, ◌++◌, bit_and, bit_xor, length, get_or, take, drop, ltb,
  leb, Result, ok, ◌>>=◌, ◌>>◌, assert, in_range,
}

abbrev pub mask_code : ℕ
mask_code = 0x80200802

-- `static short mask[4]`
abbrev pub mask_table : List ℕ
mask_table =
    bit_and mask_code 0xff
    ∷ bit_and (mask_code / 2 ^ 8) 0xff
    ∷ bit_and (mask_code / 2 ^ 16) 0xff
    ∷ bit_and (mask_code / 2 ^ 24) 0xff
    ∷ []

abbrev pub mask_at : ℕ → ℕ
mask_at i = get_or mask_table (i % 4) 0

-- `data[i] = data[i] ^ mask[i % 4]`, stored into an `unsigned char`, for every byte from index `i`.
unfoldable pub mask_from : ℕ → List ℕ → List ℕ
mask_from i [] = []
mask_from i (x ∷ xs) = (bit_xor x (mask_at i) % 2 ^ 8) ∷ mask_from (i + 1) xs

-- Both work in place on the first `len` bytes of the array. A negative `len` fails the assertion as
-- 0 does.
unfoldable pub compute_mask : List ℕ → ℕ → Result (List ℕ)
compute_mask payload len = do
  assert (ltb 0 len)
  in_range (leb len (length payload))
  ok (mask_from 0 (take len payload) ++ drop len payload)

unfoldable pub compute_un_mask : List ℕ → ℕ → Result (List ℕ)
compute_un_mask payload len = do
  assert (ltb 0 len)
  in_range (leb len (length payload))
  ok (mask_from 0 (take len payload) ++ drop len payload)
