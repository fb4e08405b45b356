-- ===== src/Protocol/Decode/Ends.antt =====
-- Whether the loop of `decodeFrame` ends, and how.
use websocket_cpp.Base.{
  Bool-cases, ==_iff, ℕ, zero, suc, ◌+◌, ◌-◌, ◌<◌, ◌≡◌, ◌≢◌, refl, ap, sym, ◌∙◌, ◌⊎◌, inl, inr,
  List, [], ◌∷◌, none, length, drop, drop-add, ◌==◌, ok, Result-cases, >>=-eq-ok, replicate, arith,
  assert, in_range, leb, some, false, lt→ltb, le→ltb,
}
use native.Mathlib.Decide.{ℕ_discrete, dec_lt}
use websocket_cpp.Protocol.Head.{WsHead, read_head, read16}
use websocket_cpp.Protocol.Encode.{short_length}
use websocket_cpp.Protocol.Decode.{
  WsProtocol, Part, Turn, running, locate, fetch, deliver, last_frame, fragment, round, decode_loop,
  prepend, max_framesize, decode_frame, append_frame, begin_frame,
}
use websocket_cpp.Protocol.Decode.Loop.{
  decode_loop-more, decode_loop-stop, decode_loop-err, decode_frame-eq,
}

-- The header that does not move `data`: a last frame, not masked, with a `PayloadLen` of 127.
pub record IsStuck (h : WsHead) : Type 0 where
  pub last : h.fin ≡ 1
  pub unmasked : h.mask ≢ 1
  pub len127 : 126 < h.payload_len

-- How a round that went well has moved.
record Moved (mem : List ℕ) (len : ℕ) (t : Turn) : Type 0 where
  by : ℕ
  mem_eq : t.mem ≡ drop by mem
  len_eq : t.len ≡ len - by
  progress : (0 < by) ⊎ ((h : WsHead) × (read_head mem ≡ ok h) × IsStuck h)

locate-advance :
    (h : WsHead) (mem : List ℕ) (part : Part)
    → locate h mem ≡ ok part
    → (0 < part.advance) ⊎ ((126 < h.payload_len) × (part.payl ≡ none))
unfolding locate
locate-advance h mem part e = ground arith

fetch-none : (h : WsHead) (n : ℕ) (bytes : List ℕ) → fetch h none n ≡ ok bytes → h.mask ≢ 1
unfolding fetch
fetch-none h n bytes e m = ground arith

last_frame-Moved :
    (h : WsHead) (p : WsProtocol) (mem : List ℕ) (len : ℕ) (t : Turn)
    → read_head mem ≡ ok h
    → h.fin ≡ 1
    → last_frame h p mem len ≡ ok t
    → Moved mem len t
unfolding last_frame
last_frame-Moved h p mem len t eh ef e =
    let (part, e1, k1) = >>=-eq-ok (locate h mem) _ e in
    let (bytes, e2, k2) = >>=-eq-ok (fetch h part.payl part.payll) _ k1 in
    let (delivered, e3, k3) = >>=-eq-ok (deliver h p bytes) _ k2 in
    record {
      by = part.advance;
      mem_eq = cc k3;
      len_eq = cc k3;
      progress = elim (locate-advance h mem part e1) [
        | inl moved ↦ inl moved
        | inr stuck ↦ inr (
          h,
          eh,
          record {
            last = ef;
            unmasked =
                fetch-none h part.payll bytes (ap (λ o. fetch h o part.payll) (sym stuck.1) ∙ e2);
            len127 = stuck.0;
          },
        )
      ];
    }

fragment-Moved :
    (h : WsHead) (p : WsProtocol) (mem : List ℕ) (len : ℕ) (t : Turn)
    → fragment h p mem len ≡ ok t
    → Moved mem len t
unfolding fragment
fragment-Moved h p mem len t e =
    let (u, e1, k1) = >>=-eq-ok (assert (h.payload_len == short_length)) _ e in
    let (n, e2, k2) = >>=-eq-ok (read16 (drop 2 mem)) _ k1 in
    let (v, e3, k3) = >>=-eq-ok (in_range (leb 8 (length mem))) _ k2 in
    let (bytes, e4, k4) = >>=-eq-ok (fetch h (some (drop 8 mem)) n) _ k3 in
    let (q, e5, k5) = >>=-eq-ok (append_frame (begin_frame h p) bytes) _ k4 in
    record { by = n + 8; mem_eq = cc k5; len_eq = cc k5; progress = inl (omega arith) }

round-Moved :
    (p : WsProtocol) (mem : List ℕ) (len : ℕ) (t : Turn) → round p mem len ≡ ok t → Moved mem len t
unfolding round
round-Moved p mem len t e =
    let (h, e1, k1) = >>=-eq-ok (read_head mem) _ e in
    elim (Bool-cases (h.fin == 1)) [
      | inl f ↦ last_frame-Moved h p mem len t e1 ((==_iff h.fin 1).0 f) (rw f at k1)
      | inr f ↦ fragment-Moved h p mem len t (rw f at k1)
    ]

-- Somewhere in the data the loop meets a header that does not move it.
abbrev pub MeetsStuck : List ℕ → Type 0
MeetsStuck mem = (k : ℕ) × (h : WsHead) × (read_head (drop k mem) ≡ ok h) × IsStuck h

-- The loop ends within `len` rounds, by returning or by a failure, unless the data holds a header of
-- a last frame that is not masked and has a `PayloadLen` of 127.
pub decode_loop_ends :
    (f : ℕ) (p : WsProtocol) (mem : List ℕ) (len : ℕ)
    → len < f
    → ((decode_loop f p mem len).status ≢ running) ⊎ MeetsStuck mem
decode_loop_ends zero p mem len h = absurd (omega arith)
decode_loop_ends (suc f) p mem len h = elim (Result-cases (round p mem len)) [
  | inl (e, r) ↦ inl (rw (decode_loop-err f p mem len e r) (λ x. cc x))
  | inr (t, r) ↦
      ended t r (round-Moved p mem len t r) (λ l. decode_loop_ends f t.proto t.mem t.len l)
]
  where
    ended :
        (t : Turn)
        → round p mem len ≡ ok t
        → Moved mem len t
        → (t.len < f → ((decode_loop f t.proto t.mem t.len).status ≢ running) ⊎ MeetsStuck t.mem)
        → ((decode_loop (suc f) p mem len).status ≢ running) ⊎ MeetsStuck mem
    ended t r m next = elim (ℕ_discrete t.len 0) [
      | yes z ↦ inl (rw (decode_loop-stop f p mem len t r z) (λ x. cc x))
      | no nz ↦ elim m.progress [
        | inl moved ↦ elim (next (omega arith)) [
          | inl ends ↦ inl (rw (decode_loop-more f p mem len t r (omega arith)) ends)
          | inr (k, g, e, s) ↦ inr (m.by + k, g, rw (drop-add m.by k mem, ← m.mem_eq) e, s)
        ]
        | inr (g, e, s) ↦ inr (0, g, unfold drop in e, s)
      ]
    ]

stuck_round :
    (p : WsProtocol) (h : WsHead) (mem : List ℕ) (len : ℕ)
    → read_head mem ≡ ok h
    → IsStuck h
    → (h.opcode == 0) ≡ false
    → round p mem len ≡ ok (record { proto = p; calls = [] ∷ []; mem = mem; len = len })
unfolding round drop
stuck_round p h mem len e s o =
    rw (e, (==_iff h.fin 1).1 s.last, le→ltb h.payload_len 126 (omega arith), ne126, unmasked, o)
      (ap (λ l. ok (record { proto = p; calls = [] ∷ []; mem = mem; len = l })) {y = len}
        (omega arith))
  where
    ne126 : (h.payload_len == 126) ≡ false
    ne126 = ground arith

    unmasked : (h.mask == 1) ≡ false
    unmasked = elim (Bool-cases (h.mask == 1)) [
      | inl y ↦ absurd (s.unmasked ((==_iff h.mask 1).0 y))
      | inr n ↦ n
    ]

stuck_loop :
    (f : ℕ) (p : WsProtocol) (h : WsHead) (mem : List ℕ) (len : ℕ)
    → read_head mem ≡ ok h
    → IsStuck h
    → (h.opcode == 0) ≡ false
    → 0 < len
    → decode_loop f p mem len ≡ record { proto = p; calls = replicate f []; status = running }
unfolding decode_loop replicate
stuck_loop zero p h mem len e s o pos = refl
stuck_loop (suc f) p h mem len e s o pos =
    decode_loop-more f p mem len _ (stuck_round p h mem len e s o) pos
    ∙ ap (prepend ([] ∷ [])) (stuck_loop f p h mem len e s o pos)

-- At a header of a last frame that is not masked and has a `PayloadLen` of 127, and whose opcode is
-- not that of a continuation, `decodeFrame` never returns: whatever the fuel, the loop is still
-- running, and has called `func` with an empty payload in every round.
pub decode_frame_stuck :
    (f : ℕ) (p : WsProtocol) (h : WsHead) (mem : List ℕ) (len : ℕ)
    → read_head mem ≡ ok h
    → IsStuck h
    → h.opcode ≢ 0
    → 0 < len
    → len < max_framesize
    → decode_frame f p mem len ≡ record { proto = p; calls = replicate f []; status = running }
decode_frame_stuck f p h mem len e s o pos small =
    decode_frame-eq f p mem len small ∙ stuck_loop f p h mem len e s off pos
  where
    off : (h.opcode == 0) ≡ false
    off = elim (Bool-cases (h.opcode == 0)) [
      | inl y ↦ absurd (o ((==_iff h.opcode 0).0 y))
      | inr n ↦ n
    ]

-- `decodeFrame` ends within `len` rounds, by returning or by a failure, unless the data holds a header
-- of a last frame that is not masked and has a `PayloadLen` of 127.
pub decode_frame_ends :
    (f : ℕ) (p : WsProtocol) (mem : List ℕ) (len : ℕ)
    → len < f
    → ((decode_frame f p mem len).status ≢ running) ⊎ MeetsStuck mem
unfolding decode_frame
decode_frame_ends f p mem len h = elim (dec_lt len max_framesize) [
  | yes a ↦ rw (lt→ltb len max_framesize a) (decode_loop_ends f p mem len h)
  | no a ↦ inl (rw (le→ltb len max_framesize (omega arith)) (λ x. cc x))
]
