-- ===== src/Protocol/RoundTrip/Sliced.antt =====
-- A text or a blob of 500 bytes or more, which is sent in slices.
use websocket_cpp.Base.{
  ℕ, zero, suc, ◌+◌, ◌-◌, ◌*◌, ◌<◌, ◌≤◌, ◌≡◌, refl, ap, sym, ◌∙◌, List, [], ◌∷◌, ◌++◌, length, take,
  drop, flatten, length-take, length-drop, take-add, lt→ltb, le→ltb, arith,
}
use native.Mathlib.Decide.{dec_lt}
use websocket_cpp.Protocol.Head.{WsHead}
use websocket_cpp.Protocol.Mask.{mask_from}
use websocket_cpp.Protocol.Mask.Laws.{IsBytes, mask_from-mask_from, length-mask_from}
use websocket_cpp.Protocol.Mask.Slices.{mask_from_piece}
use websocket_cpp.Protocol.Encode.{last_slice, slices, short_frame, long_frame}
use websocket_cpp.Protocol.Encode.Shape.{
  end_head, slices_middle, slices_last, last_slice_short, last_slice_long,
}
use websocket_cpp.Protocol.RoundTrip.Single.{loop_one}
use websocket_cpp.Protocol.Decode.{WsProtocol, Decoded, returned, gathered, decode_loop}
use websocket_cpp.Protocol.Decode.Rounds.{
  short_wire, long_wire, round_short, round_long, deliver-gathered,
}
use websocket_cpp.Protocol.Decode.Loop.{Appended, append_frame-Appended}
use websocket_cpp.Protocol.RoundTrip.{Delivers, last_offset}

IsBytes-take : (n : ℕ) (xs : List ℕ) → IsBytes xs → IsBytes (take n xs)
unfolding take
IsBytes-take zero xs b = tt
IsBytes-take (suc n) [] b = tt
IsBytes-take (suc n) (x ∷ xs) b = (b.0, IsBytes-take n xs b.1)

IsBytes-drop : (n : ℕ) (xs : List ℕ) → IsBytes xs → IsBytes (drop n xs)
unfolding drop
IsBytes-drop zero xs b = b
IsBytes-drop (suc n) [] b = b
IsBytes-drop (suc n) (x ∷ xs) b = IsBytes-drop n xs b.1

-- Unmasking a piece of the masked payload gives the piece of the payload.
pub unmask_piece :
    (i n : ℕ) (xs : List ℕ)
    → IsBytes xs
    → mask_from 0 (take n (drop (i * 500) (mask_from 0 xs))) ≡ take n (drop (i * 500) xs)
unmask_piece i n xs b = rw e (
    ap (mask_from 0) (mask_from_piece (i * 125) n xs)
    ∙ mask_from-mask_from 0 _ (IsBytes-take n _ (IsBytes-drop (4 * (i * 125)) xs b)))
  where
    e : i * 500 ≡ 4 * (i * 125)
    e = omega arith

pub length_piece :
    (i n : ℕ) (xs : List ℕ)
    → i * 500 + n ≤ length xs
    → length (take n (drop (i * 500) (mask_from 0 xs))) ≡ n
length_piece i n xs h = omega (
  arith,
  length-take n (drop (i * 500) (mask_from 0 xs)),
  length-drop (i * 500) (mask_from 0 xs),
  length-mask_from 0 xs,
)

-- The header of a message in slices; `data_head` is one.
pub record IsSliceHead (h : WsHead) : Type 0 where
  pub rsv_zero : h.rsv ≡ 0
  pub masked : h.mask ≡ 1

-- `i` slices of `xs` are gathered, and the array has room for all of `xs`.
pub record Holds (xs : List ℕ) (i : ℕ) (p : WsProtocol) : Type 0 where
  pub filled : p.frame_pos ≡ i * 500
  pub room : length xs ≤ length p.frame_buff
  pub contents : gathered p ≡ take (i * 500) xs

pub Holds-suc :
    {xs : List ℕ} {i : ℕ} {p q : WsProtocol}
    → Holds xs i p
    → i * 500 + 500 ≤ length xs
    → Appended p (take 500 (drop (i * 500) xs)) q
    → Holds xs (i + 1) q
Holds-suc {xs} {i} {p} {q} v h a = record {
  filled = omega (arith, length-take 500 (drop (i * 500) xs), length-drop (i * 500) xs);
  room = omega arith;
  contents =
      a.contents
      ∙ ap (λ t. t ++ take 500 (drop (i * 500) xs)) v.contents
      ∙ sym (take-add (i * 500) 500 xs)
      ∙ ap (λ n. take n xs) {y = (i + 1) * 500} (omega arith);
}

-- A loop that ended with everything in `q` given to `func`.
Delivers-gathered :
    {p q : WsProtocol} {before part : List ℕ} {d : Decoded}
    → Appended p part q
    → gathered p ≡ before
    → d ≡ record { proto = q; calls = gathered q ∷ []; status = returned }
    → Delivers p ((before ++ part) ∷ []) d
Delivers-gathered {part} a g e = record {
  returns = ap (λ (d : Decoded). d.status) e;
  calls_made =
      ap (λ (d : Decoded). d.calls) e ∙ ap (λ t. t ∷ []) (a.contents ∙ ap (λ t. t ++ part) g);
  same_size = ap (λ (d : Decoded). length d.proto.frame_buff) e ∙ a.same_size;
}

module _ (xs : List ℕ) (b : IsBytes xs) (l : ℕ) (pos : 0 < l) (lt : l < 500) (f i : ℕ) (h : WsHead)
    (p : WsProtocol) (s : IsSliceHead h) (v : Holds xs i p) (i_pos : 0 < i)
    (total : i * 500 + l ≡ length xs) where
  abbrev masked : List ℕ
  masked = mask_from 0 xs

  -- `j` slices before the place from which the bytes are taken.
  abbrev part : ℕ → List ℕ
  part j = take l (drop (j * 500) xs)

  abbrev cut : ℕ → List ℕ
  cut j = take l (drop (j * 500) masked)

  room_for : (j : ℕ) → (q : WsProtocol) × Appended p (part j) q
  room_for j = append_frame-Appended p (part j) (omega (arith, length-take l (drop (j * 500) xs)))

  abbrev Ends : ℕ → List ℕ → Type 0
  Ends j frame =
      Delivers p ((take (i * 500) xs ++ part j) ∷ [])
        (decode_loop (suc f) p (frame ++ []) (length (frame ++ [])))

  end_short :
      l < 126
      → Ends
          (i - 1)
          (short_frame (record (end_head h) { payload_len = l }) (drop ((i - 1) * 500) masked) l)
  end_short a =
      let h' : WsHead = record (end_head h) { payload_len = l } in
      let (q, g) = room_for (i - 1) in
      Delivers-gathered g v.contents (
        loop_one f p q h' (mask_from 0 (cut (i - 1))) (gathered q) (short_wire h' (cut (i - 1)))
          (l + 6) (omega (arith, length_piece (i - 1) l xs (omega arith)))
          (round_short p h' l (cut (i - 1)) [] _ (omega arith) refl s.masked refl
            (length_piece (i - 1) l xs (omega arith)) pos a)
          (deliver-gathered h' p q _ refl (rw (unmask_piece (i - 1) l xs b) g.appended)))

  end_long : 126 ≤ l → Ends i (long_frame (end_head h) (drop (i * 500) masked) l)
  end_long a =
      let (q, g) = room_for i in
      Delivers-gathered g v.contents (
        loop_one f p q (end_head h) (mask_from 0 (cut i)) (gathered q)
          (long_wire (end_head h) l (cut i)) (l + 8)
          (omega (arith, length_piece i l xs (omega arith)))
          (round_long p (end_head h) l (cut i) [] _ (omega arith) refl s.masked refl
            (length_piece i l xs (omega arith)) pos (omega arith))
          (deliver-gathered (end_head h) p q _ refl (rw (unmask_piece i l xs b) g.appended)))

  -- The last slice makes `func` receive everything gathered and the bytes of the slice.
  pub end_slice : Delivers p ((take (i * 500) xs ++ take l (drop (last_offset l i) xs)) ∷ []) (
      decode_loop
        (suc f)
        p
        (last_slice (end_head h) masked l i ++ [])
        (length (last_slice (end_head h) masked l i ++ [])))
  end_slice = elim (dec_lt l 126) [
    | yes a ↦ rw (last_slice_short (end_head h) masked l i a, lt→ltb l 126 a) (end_short a)
    | no a ↦
        rw (last_slice_long (end_head h) masked l i (omega arith), le→ltb l 126 (omega arith))
          (end_long (omega arith))
  ]

nonempty_last : (h : WsHead) (m ys : List ℕ) (l i : ℕ) → 0 < length (last_slice h m l i ++ ys)
nonempty_last h m ys l i = elim (dec_lt l 126) [
  | yes a ↦ rw (last_slice_short h m l i a) (omega arith)
  | no a ↦ rw (last_slice_long h m l i (omega arith)) (omega arith)
]

pub nonempty_slices :
    (left i slice l : ℕ) (h : WsHead) (m : List ℕ)
    → 0 < i
    → 0 < length (flatten (slices (suc left) i slice l h m))
unfolding flatten
nonempty_slices left i slice l h m pos = elim (dec_lt (i + 1) slice) [
  | yes a ↦ rw (slices_middle left slice l h m i pos a) (omega arith)
  | no a ↦
      rw (slices_last left slice l h m i pos (omega arith)) (nonempty_last (end_head h) m [] l i)
]
