-- ===== src/Protocol/Encode/Size.antt =====
-- How long the frames of a message in slices are.
use native.Mathlib.Decide.{dec_lt}
use websocket_cpp.Base.{
  ℕ, zero, suc, ◌+◌, ◌-◌, ◌*◌, ◌<◌, ◌≤◌, List, [], length, take, drop, flatten, length-append,
  length-take, arith,
}
use websocket_cpp.Protocol.Head.{WsHead}
use websocket_cpp.Protocol.Encode.{last_slice, slices}
use websocket_cpp.Protocol.Encode.Shape.{
  first_head, middle_head, end_head, slices_middle, slices_last, last_slice_short, last_slice_long,
}

length-last_slice :
    (h : WsHead) (m : List ℕ) (l i : ℕ) → l < 500 → length (last_slice h m l i) ≤ 508
length-last_slice h m l i lt = elim (dec_lt l 126) [
  | yes a ↦ rw (last_slice_short h m l i a) (omega (arith, length-take l (drop ((i - 1) * 500) m)))
  | no a ↦
      rw (last_slice_long h m l i (omega arith)) (omega (arith, length-take l (drop (i * 500) m)))
]

-- Each frame has at most 508 bytes.
pub length-slices :
    (left i slice l : ℕ) (h : WsHead) (m : List ℕ)
    → l < 500
    → length (flatten (slices left i slice l h m)) ≤ 508 * left
unfolding flatten slices
length-slices zero i slice l h m lt = omega arith
length-slices (suc left) zero slice l h m lt = omega (
  arith,
  length-append (take 500 (drop (0 * 500) m))
      (flatten (slices left (0 + 1) slice l (first_head h) m)),
  length-take 500 (drop (0 * 500) m),
  length-slices left (0 + 1) slice l (first_head h) m lt,
)
length-slices (suc left) (suc i) slice l h m lt = elim (dec_lt (suc i + 1) slice) [
  | yes a ↦ rw (slices_middle left slice l h m (suc i) (omega arith) a) (
      omega (
        arith,
        length-append (take 500 (drop (suc i * 500) m))
            (flatten (slices left (suc i + 1) slice l (middle_head h) m)),
        length-take 500 (drop (suc i * 500) m),
        length-slices left (suc i + 1) slice l (middle_head h) m lt,
      ))
  | no a ↦ rw (slices_last left slice l h m (suc i) (omega arith) (omega arith)) (
      omega (
        arith,
        length-append (last_slice (end_head h) m l (suc i)) [],
        length-last_slice (end_head h) m l (suc i) lt,
      ))
]
