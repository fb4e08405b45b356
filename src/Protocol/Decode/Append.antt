-- ===== src/Protocol/Decode/Append.antt =====
-- What lies behind the received bytes makes no difference where `decodeFrame` returns.
use native.Mathlib.Decide.{dec_lt}
use websocket_cpp.Base.{
  ℕ, zero, suc, ◌+◌, ◌-◌, ◌≤◌, ◌≡◌, refl, sym, ap, ◌∙◌, List, [], ◌∷◌, ◌++◌, some, Bool, true,
  false, length, drop, leb, ltb, ◌==◌, ==_iff, Bool-cases, inl, inr, drop-append_le, length-drop,
  length-append, leb→le, le→leb, Result, Result-cases, ok, ◌>>=◌, >>=-eq-ok, in_range, arith,
}
use websocket_cpp.Protocol.Head.{WsHead, read_head, read16}
use websocket_cpp.Protocol.Decode.{
  WsProtocol, Turn, append_frame, begin_frame, locate, fetch, deliver, last_frame, fragment, round,
  Decoded, returned, prepend, decode_loop, decode_frame, max_framesize,
}
use websocket_cpp.Protocol.Decode.Rounds.{turn, last_frame-eq, fragment-eq}
use websocket_cpp.Protocol.Decode.Loop.{decode_loop-stop, decode_loop-more, decode_loop-err}
use websocket_cpp.Protocol.Decode.Parts.{read_head-append, read16-drop, fetch-drop, locate-append}

ok_injective {ℓ} : {A : Type ℓ} (a b : A) → ok a ≡ ok b → a ≡ b
ok_injective a b q = cc

-- The turn of a round that takes `a` bytes off
abbrev taking : ℕ → List ℕ → ℕ → WsProtocol → List (List ℕ) → Turn
taking a mem len q calls = record { proto = q; calls = calls; mem = drop a mem; len = len - a }

-- What a part of a round makes of the memory, and of a longer one
abbrev Same : (List ℕ → Result Turn) → List ℕ → List ℕ → ℕ → Turn → Type 0
Same part mem behind len t =
    (a : ℕ) × (q : WsProtocol) × (calls : List (List ℕ)) × (t ≡ taking a mem len q calls)
    × (part (mem ++ behind) ≡ ok (taking a (mem ++ behind) len q calls))

last_frame-append :
    (h : WsHead) (p : WsProtocol) (mem behind : List ℕ) (len : ℕ) (t : Turn)
    → last_frame h p mem len ≡ ok t
    → Same (λ m. last_frame h p m len) mem behind len t
unfolding last_frame
last_frame-append h p mem behind len t e =
    let (part, e1, e2) = >>=-eq-ok (locate h mem) _ e in
    let (bytes, e3, e4) = >>=-eq-ok (fetch h part.payl part.payll) _ e2 in
    let ((q, call), e5, e6) = >>=-eq-ok (deliver h p bytes) _ e4 in
    let (found, l, f, n, adv) = locate-append h mem behind bytes part e1 e3 in
    (
      part.advance,
      q,
      call ∷ [],
      sym (ok_injective _ t e6),
      last_frame-eq h p (mem ++ behind) len found bytes l f
          ∙ ap (λ r. r >>= turn found.advance (drop found.advance (mem ++ behind)) len) e5
          ∙ ap (λ a. ok (taking a (mem ++ behind) len q (call ∷ []))) adv,
    )

fragment-append :
    (h : WsHead) (p : WsProtocol) (mem behind : List ℕ) (len : ℕ) (t : Turn)
    → fragment h p mem len ≡ ok t
    → Same (λ m. fragment h p m len) mem behind len t
unfolding fragment
fragment-append h p mem behind len t e = elim (Bool-cases (h.payload_len == 126)) [
  | inr no_126 ↦ let bad = rw no_126 at e in cc
  | inl is_126 ↦
      let e0 = rw is_126 at e in
      let (n, e1, e2) = >>=-eq-ok (read16 (drop 2 mem)) _ e0 in
      let (done, e3, e4) = >>=-eq-ok (in_range (leb 8 (length mem))) _ e2 in
      let (bytes, e5, e6) = >>=-eq-ok (fetch h (some (drop 8 mem)) n) _ e4 in
      let (q, e7, e8) = >>=-eq-ok (append_frame (begin_frame h p) bytes) _ e6 in
      (
        n + 8,
        q,
        [],
        sym (ok_injective _ t e8),
        fragment-eq h p (mem ++ behind) len n bytes q ((==_iff h.payload_len 126).0 is_126)
            (read16-drop 2 mem behind n e1) (longer (in_range_true (leb 8 (length mem)) done e3))
            (fetch-drop h 8 mem behind bytes n e5) e7,
      )
]
  where
    in_range_true : (b : Bool) (u : Unit {0}) → in_range b ≡ ok u → b ≡ true
    in_range_true true u q = refl
    in_range_true false u q = cc

    longer : leb 8 (length mem) ≡ true → leb 8 (length (mem ++ behind)) ≡ true
    longer q =
        le→leb 8 (length (mem ++ behind))
          (omega (arith, leb→le 8 (length mem) q, length-append mem behind))

round-append :
    (p : WsProtocol) (mem behind : List ℕ) (len : ℕ) (t : Turn)
    → round p mem len ≡ ok t
    → Same (λ m. round p m len) mem behind len t
unfolding round
round-append p mem behind len t e =
    let (h, e1, e2) = >>=-eq-ok (read_head mem) _ e in
    let r = read_head-append mem behind h e1 in
    elim (Bool-cases (h.fin == 1)) [
      | inl y ↦
          let (a, q, calls, same, longer) = last_frame-append h p mem behind len t (rw y at e2) in
          (a, q, calls, same, rw (round, r, y) longer)
      | inr z ↦
          let (a, q, calls, same, longer) = fragment-append h p mem behind len t (rw z at e2) in
          (a, q, calls, same, rw (round, r, z) longer)
    ]

-- Where the loop returns, it does the same if the memory goes on behind the data.
decode_loop-append :
    (f : ℕ) (p : WsProtocol) (mem behind : List ℕ) (len : ℕ)
    → len ≤ length mem
    → (decode_loop f p mem len).status ≡ returned
    → decode_loop f p (mem ++ behind) len ≡ decode_loop f p mem len
unfolding decode_loop
decode_loop-append zero p mem behind len fits r = cc
decode_loop-append (suc f) p mem behind len fits r = elim (Result-cases (round p mem len)) [
  | inl (x, e) ↦
      let bad = ap (λ (d : Decoded). d.status) (sym (decode_loop-err f p mem len x e)) ∙ r in cc
  | inr (t, e) ↦
      let (a, q, calls, same, longer) = round-append p mem behind len t e in
      let here = e ∙ ap ok same in
      elim (dec_lt 0 (len - a)) [
        | no z ↦
            decode_loop-stop f p (mem ++ behind) len _ longer (omega arith)
            ∙ sym (decode_loop-stop f p mem len _ here (omega arith))
        | yes more ↦
            let step = decode_loop-more f p mem len _ here more in
            let rest = ap (λ (d : Decoded). d.status) (sym step) ∙ r in
            let cut = drop-append_le a mem behind (omega arith) in
            decode_loop-more f p (mem ++ behind) len _ longer more
            ∙ ap (λ m. prepend calls (decode_loop f q m (len - a))) cut
            ∙ ap (prepend calls) (
                decode_loop-append f q (drop a mem) behind (len - a)
                  (omega (arith, length-drop a mem)) rest)
            ∙ sym step
      ]
]

-- What lies behind the data makes no difference to `decodeFrame` where it returns.
pub decode_frame-append :
    (f : ℕ) (p : WsProtocol) (wire behind : List ℕ)
    → (decode_frame f p wire (length wire)).status ≡ returned
    → decode_frame f p (wire ++ behind) (length wire) ≡ decode_frame f p wire (length wire)
unfolding decode_frame
decode_frame-append f p wire behind r = elim (Bool-cases (ltb (length wire) max_framesize)) [
  | inr z ↦ rw z refl
  | inl y ↦ rw y (decode_loop-append f p wire behind (length wire) (omega arith) (rw y at r))
]
