-- ===== src/Protocol/Decode/Parts.antt =====
-- The parts of a round find the same in a memory that goes on.
use native.Mathlib.Decide.{dec_lt}
use websocket_cpp.Base.{
  ℕ, zero, suc, ◌+◌, ◌<◌, ◌≤◌, ◌≡◌, ◌≢◌, refl, sym, ap, ◌∙◌, List, [], ◌∷◌, ◌++◌, append_assoc,
  none, some, false, length, take, drop, leb, ltb, ◌==◌, ==_iff, Bool-cases, inl, inr,
  take-append-drop, take-append_le, length-take, length-append, leb→le, le→leb, ok, err, Failure,
  ◌>>=◌, >>=-eq-ok, arith,
}
use websocket_cpp.Protocol.Head.{WsHead, read_head, read16}
use websocket_cpp.Protocol.Decode.{Part, locate, fetch}
use websocket_cpp.Protocol.Decode.Rounds.{fetch-masked, fetch-empty, fetch-missing}

drop-append : (k : ℕ) (xs ys : List ℕ) → (zs : List ℕ) × (drop k (xs ++ ys) ≡ drop k xs ++ zs)
unfolding drop
drop-append zero xs ys = (ys, refl)
drop-append (suc k) [] ys = (drop (suc k) ys, refl)
drop-append (suc k) (x ∷ xs) ys = drop-append k xs ys

pub read_head-append :
    (mem behind : List ℕ) (h : WsHead) → read_head mem ≡ ok h → read_head (mem ++ behind) ≡ ok h
read_head-append [] behind h e = cc
read_head-append (b0 ∷ []) behind h e = cc
read_head-append (b0 ∷ b1 ∷ r) behind h e = e

read16-append : (mem behind : List ℕ) (n : ℕ) → read16 mem ≡ ok n → read16 (mem ++ behind) ≡ ok n
read16-append [] behind h e = cc
read16-append (b0 ∷ []) behind h e = cc
read16-append (b0 ∷ b1 ∷ r) behind h e = e

pub read16-drop :
    (k : ℕ) (mem behind : List ℕ) (n : ℕ)
    → read16 (drop k mem) ≡ ok n
    → read16 (drop k (mem ++ behind)) ≡ ok n
read16-drop k mem behind n e =
    let (zs, d) = drop-append k mem behind in ap read16 d ∙ read16-append (drop k mem) zs n e

-- A masked payload is there in full if it can be fetched.
fetch-bounds :
    (h : WsHead) (payl bytes : List ℕ) (n : ℕ)
    → h.mask ≡ 1
    → fetch h (some payl) n ≡ ok bytes
    → (0 < n) × (n ≤ length payl)
fetch-bounds h payl bytes n m e = elim (dec_lt (length payl) n) [
  | yes a ↦ absurd (failed_fetch (fetch-missing h n payl m a))
  | no a ↦ elim (dec_lt 0 n) [
    | yes b ↦ (b, omega arith)
    | no b ↦
        let z : n ≡ 0 = omega arith in
        absurd (failed_fetch (ap (fetch h (some payl)) z ∙ fetch-empty h payl m))
  ]
]
  where
    failed_fetch : {f : Failure} → fetch h (some payl) n ≢ err f
    failed_fetch q = let bad = sym q ∙ e in cc

fetch-append_masked :
    (h : WsHead) (payl behind bytes : List ℕ) (n : ℕ)
    → h.mask ≡ 1
    → fetch h (some payl) n ≡ ok bytes
    → fetch h (some (payl ++ behind)) n ≡ ok bytes
fetch-append_masked h payl behind bytes n m e =
    let (pos, fits) = fetch-bounds h payl bytes n m e in
    let ms : List ℕ = take n payl in
    let rest : List ℕ = drop n payl in
    let whole : ms ++ rest ≡ payl = take-append-drop n payl in
    let size : length ms ≡ n = omega (arith, length-take n payl) in
    let first = ap (λ z. fetch h (some z) n) (sym whole) ∙ fetch-masked h n ms rest m size pos in
    ap (λ z. fetch h (some (z ++ behind)) n) (sym whole)
    ∙ ap (λ z. fetch h (some z) n) (append_assoc ms rest behind)
    ∙ fetch-masked h n ms (rest ++ behind) m size pos
    ∙ sym first
    ∙ e

fetch-append_plain :
    (h : WsHead) (payl behind bytes : List ℕ) (n : ℕ)
    → (h.mask == 1) ≡ false
    → fetch h (some payl) n ≡ ok bytes
    → fetch h (some (payl ++ behind)) n ≡ ok bytes
unfolding fetch
fetch-append_plain h payl behind bytes n z e = elim (Bool-cases (leb n (length payl))) [
  | inr b ↦ let bad = rw (z, b) at e in cc
  | inl a ↦
      let fits = leb→le n (length payl) a in
      let same = rw (z, a) at e in
      rw (z, le→leb n (length (payl ++ behind)) (omega (arith, length-append payl behind)))
        (ap ok (take-append_le n payl behind fits) ∙ same)
]

fetch-append :
    (h : WsHead) (payl behind bytes : List ℕ) (n : ℕ)
    → fetch h (some payl) n ≡ ok bytes
    → fetch h (some (payl ++ behind)) n ≡ ok bytes
fetch-append h payl behind bytes n e = elim (Bool-cases (h.mask == 1)) [
  | inl y ↦ fetch-append_masked h payl behind bytes n ((==_iff h.mask 1).0 y) e
  | inr z ↦ fetch-append_plain h payl behind bytes n z e
]

pub fetch-drop :
    (h : WsHead) (k : ℕ) (mem behind bytes : List ℕ) (n : ℕ)
    → fetch h (some (drop k mem)) n ≡ ok bytes
    → fetch h (some (drop k (mem ++ behind))) n ≡ ok bytes
fetch-drop h k mem behind bytes n e =
    let (zs, d) = drop-append k mem behind in
    ap (λ z. fetch h (some z) n) d ∙ fetch-append h (drop k mem) zs bytes n e

-- The same part and the same payload are found in the longer memory.
abbrev pub Located : WsHead → List ℕ → Part → List ℕ → Type 0
Located h mem part bytes =
    (found : Part) × (locate h mem ≡ ok found)
    × (fetch h found.payl found.payll ≡ ok bytes)
    × (found.payll ≡ part.payll)
    × (found.advance ≡ part.advance)

Located-at :
    (h : WsHead) (mem behind bytes : List ℕ) (part : Part) (k n a : ℕ)
    → record { payl = some (drop k mem); payll = n; advance = a } ≡ part
    → fetch h part.payl part.payll ≡ ok bytes
    → locate h (mem ++ behind)
      ≡ ok (record { payl = some (drop k (mem ++ behind)); payll = n; advance = a })
    → Located h (mem ++ behind) part bytes
Located-at h mem behind bytes part k n a q f l =
    let here : fetch h (some (drop k mem)) n ≡ ok bytes =
      ap (λ (r : Part). fetch h r.payl r.payll) q ∙ f in
    (
      record { payl = some (drop k (mem ++ behind)); payll = n; advance = a },
      l,
      fetch-drop h k mem behind bytes n here,
      ap (λ (r : Part). r.payll) q,
      ap (λ (r : Part). r.advance) q,
    )

pub locate-append :
    (h : WsHead) (mem behind bytes : List ℕ) (part : Part)
    → locate h mem ≡ ok part
    → fetch h part.payl part.payll ≡ ok bytes
    → Located h (mem ++ behind) part bytes
unfolding locate
locate-append h mem behind bytes part e f = elim (Bool-cases (ltb h.payload_len 126)) [
  | inl a ↦
      let n = h.payload_len in
      let k : ok (record { payl = some (drop 6 mem); payll = n; advance = n + 6 }) ≡ ok part =
        rw a at e in
      Located-at h mem behind bytes part 6 n (n + 6) (cc) f (rw a refl)
  | inr a ↦ elim (Bool-cases (h.payload_len == 126)) [
    | inl b ↦
        let k : (read16 (drop 2 mem) >>= λ n.
        ok (record { payl = some (drop 8 mem); payll = n; advance = n + 8 }))
            ≡ ok part =
          rw (a, b) at e in
        let (n, r, q) = >>=-eq-ok (read16 (drop 2 mem)) _ k in
        Located-at h mem behind bytes part 8 n (n + 8) (cc) f
          (rw (a, b, read16-drop 2 mem behind n r) refl)
    | inr b ↦
        let k : ok (record { payl = none; payll = 0; advance = 0 }) ≡ ok part = rw (a, b) at e in
        (part, rw (a, b) k, f, refl, refl)
  ]
]
