-- ===== src/Protocol/Decode/Rounds.antt =====
-- What one round of `decodeFrame` makes of a masked frame that is there in full.
use native.Mathlib.Nat.{add_comm}
use websocket_cpp.Base.{
  drop-add, drop-append_of_eq, leb, true, false, ℕ, ◌+◌, ◌-◌, ◌^◌, ◌<◌, ◌≡◌, refl, ap, ◌∙◌, List,
  [], ◌∷◌, ◌++◌, some, length, drop, ◌==◌, ==_iff, if◌then◌else◌, lt→ltb, le→leb, take-append_of_eq,
  Result, ok, err, Failure, aborted, faulted, length-drop, ◌>>=◌, arith,
}
use websocket_cpp.Protocol.Head.{WsHead, head_bytes, le16, read16}
use websocket_cpp.Protocol.Head.Laws.{IsHead, read_head-head_bytes, read16-le16}
use websocket_cpp.Protocol.Mask.{mask_from}
use websocket_cpp.Protocol.Mask.Laws.{
  length-mask_from, compute_un_mask_lem, compute_un_mask_zero, compute_un_mask_missing,
}
use websocket_cpp.Protocol.Encode.{mask_bytes}
use websocket_cpp.Protocol.Decode.{
  WsProtocol, Part, Turn, gathered, append_frame, begin_frame, locate, fetch, deliver, last_frame,
  fragment, round,
}

-- A frame with its payload already masked.
abbrev pub short_wire : WsHead → List ℕ → List ℕ
short_wire h ms = head_bytes h ++ (mask_bytes ++ ms)

abbrev pub long_wire : WsHead → ℕ → List ℕ → List ℕ
long_wire h n ms = head_bytes h ++ (le16 n ++ (mask_bytes ++ ms))

round-head :
    (p : WsProtocol) (h : WsHead) (xs : List ℕ) (len : ℕ)
    → IsHead h
    → round p (head_bytes h ++ xs) len ≡ (
        if h.fin == 1
        then last_frame h p (head_bytes h ++ xs) len
        else fragment h p (head_bytes h ++ xs) len)
unfolding round
round-head p h xs len v =
    ap
      (λ (r : Result WsHead). r >>= λ g.
        if g.fin == 1
        then last_frame g p (head_bytes h ++ xs) len
        else fragment g p (head_bytes h ++ xs) len)
      (read_head-head_bytes h xs v)

pub fetch-masked :
    (h : WsHead) (n : ℕ) (ms rest : List ℕ)
    → h.mask ≡ 1
    → length ms ≡ n
    → 0 < n
    → fetch h (some (ms ++ rest)) n ≡ ok (mask_from 0 ms)
unfolding fetch
fetch-masked h n ms rest m e pos =
    rw ((==_iff h.mask 1).1 m, compute_un_mask_lem n ms rest e pos)
      (ap ok (take-append_of_eq n (mask_from 0 ms) rest (length-mask_from 0 ms ∙ e)))

-- What a round gives back once the payload is at hand.
abbrev pub turn : ℕ → List ℕ → ℕ → WsProtocol × List ℕ → Result Turn
turn advance rest len (q, call) =
    ok (record { proto = q; calls = call ∷ []; mem = rest; len = len - advance })

pub last_frame-eq :
    (h : WsHead) (p : WsProtocol) (mem : List ℕ) (len : ℕ) (part : Part) (bytes : List ℕ)
    → locate h mem ≡ ok part
    → fetch h part.payl part.payll ≡ ok bytes
    → last_frame h p mem len ≡ (deliver h p bytes >>= turn part.advance (drop part.advance mem) len)
unfolding last_frame
last_frame-eq h p mem len part bytes a b = rw (a, b)

drop-wire :
    (k n : ℕ) (mem ms rest : List ℕ)
    → drop k mem ≡ ms ++ rest
    → length ms ≡ n
    → drop (n + k) mem ≡ rest
drop-wire k n mem ms rest e l =
    ap (λ j. drop j mem) (add_comm n k)
    ∙ drop-add k n mem
    ∙ ap (drop n) e
    ∙ drop-append_of_eq n ms rest l

-- A last frame of less than 126 bytes.
pub round_short :
    (p : WsProtocol) (h : WsHead) (n : ℕ) (ms rest : List ℕ) (len : ℕ)
    → IsHead h
    → h.fin ≡ 1
    → h.mask ≡ 1
    → h.payload_len ≡ n
    → length ms ≡ n
    → 0 < n
    → n < 126
    → round p (short_wire h ms ++ rest) len
      ≡ (deliver h p (mask_from 0 ms) >>= turn (n + 6) rest len)
round_short p h n ms rest len v f m l e pos small =
    round-head p h _ len v
    ∙ rw ((==_iff h.fin 1).1 f) (
        last_frame-eq h p mem len (record { payl = some (ms ++ rest); payll = n; advance = n + 6 })
          (mask_from 0 ms) located (fetch-masked h n ms rest m e pos))
    ∙ ap (λ r. deliver h p (mask_from 0 ms) >>= turn (n + 6) r len)
        (drop-wire 6 n mem ms rest (unfold drop in refl) e)
  where
    mem : List ℕ
    mem = short_wire h ms ++ rest

    located : locate h mem ≡ ok (record { payl = some (ms ++ rest); payll = n; advance = n + 6 })
    located = unfold locate drop in rw (l, lt→ltb n 126 small)

-- A last frame with a length of two bytes.
pub round_long :
    (p : WsProtocol) (h : WsHead) (n : ℕ) (ms rest : List ℕ) (len : ℕ)
    → IsHead h
    → h.fin ≡ 1
    → h.mask ≡ 1
    → h.payload_len ≡ 126
    → length ms ≡ n
    → 0 < n
    → n < 2 ^ 16
    → round p (long_wire h n ms ++ rest) len
      ≡ (deliver h p (mask_from 0 ms) >>= turn (n + 8) rest len)
round_long p h n ms rest len v f m l e pos small =
    round-head p h _ len v
    ∙ rw ((==_iff h.fin 1).1 f) (
        last_frame-eq h p mem len (record { payl = some (ms ++ rest); payll = n; advance = n + 8 })
          (mask_from 0 ms) located (fetch-masked h n ms rest m e pos))
    ∙ ap (λ r. deliver h p (mask_from 0 ms) >>= turn (n + 8) r len)
        (drop-wire 8 n mem ms rest (unfold drop in refl) e)
  where
    mem : List ℕ
    mem = long_wire h n ms ++ rest

    located : locate h mem ≡ ok (record { payl = some (ms ++ rest); payll = n; advance = n + 8 })
    located =
        unfold locate drop in
        rw l (
          ap
            (λ (r : Result ℕ).
              r >>= λ k. ok (record { payl = some (ms ++ rest); payll = k; advance = k + 8 }))
            (read16-le16 n (mask_bytes ++ (ms ++ rest)) small))

pub fragment-eq :
    (h : WsHead) (p : WsProtocol) (mem : List ℕ) (len n : ℕ) (bytes : List ℕ) (q : WsProtocol)
    → h.payload_len ≡ 126
    → read16 (drop 2 mem) ≡ ok n
    → leb 8 (length mem) ≡ true
    → fetch h (some (drop 8 mem)) n ≡ ok bytes
    → append_frame (begin_frame h p) bytes ≡ ok q
    → fragment h p mem len
      ≡ ok (record { proto = q; calls = []; mem = drop (n + 8) mem; len = len - (n + 8) })
unfolding fragment
fragment-eq h p mem len n bytes q a b c d e = rw (a, b, c, d, e)

-- A fragment: it is gathered, and `func` is not called.
pub round_fragment :
    (p q : WsProtocol) (h : WsHead) (n : ℕ) (ms rest : List ℕ) (len : ℕ)
    → IsHead h
    → h.fin ≡ 0
    → h.mask ≡ 1
    → h.payload_len ≡ 126
    → length ms ≡ n
    → 0 < n
    → n < 2 ^ 16
    → append_frame (begin_frame h p) (mask_from 0 ms) ≡ ok q
    → round p (long_wire h n ms ++ rest) len
      ≡ ok (record { proto = q; calls = []; mem = rest; len = len - (n + 8) })
round_fragment p q h n ms rest len v f m l e pos small g =
    round-head p h _ len v
    ∙ rw off (
        fragment-eq h p mem len n (mask_from 0 ms) q l
          (unfold drop in read16-le16 n (mask_bytes ++ (ms ++ rest)) small)
          (le→leb 8 (length mem) (omega arith)) (rw same (fetch-masked h n ms rest m e pos)) g)
    ∙ ap (λ r. ok (record { proto = q; calls = []; mem = r; len = len - (n + 8) }))
        (drop-wire 8 n mem ms rest (unfold drop in refl) e)
  where
    mem : List ℕ
    mem = long_wire h n ms ++ rest

    off : (h.fin == 1) ≡ false
    off = rw f

    same : drop 8 mem ≡ ms ++ rest
    same = unfold drop in refl

-- A frame that is no last fragment goes to `func` by itself.
pub deliver_whole :
    (h : WsHead) (p : WsProtocol) (bytes : List ℕ)
    → (h.opcode == 0) ≡ false
    → deliver h p bytes ≡ ok (p, bytes)
unfolding deliver
deliver_whole h p bytes e = rw e

-- A last fragment is appended, and everything gathered goes to `func`.
pub deliver-gathered :
    (h : WsHead) (p q : WsProtocol) (bytes : List ℕ)
    → h.opcode ≡ 0
    → append_frame p bytes ≡ ok q
    → deliver h p bytes ≡ ok (q, gathered q)
unfolding deliver
deliver-gathered h p q bytes z e = rw (z, e)

last_frame-err :
    (h : WsHead) (p : WsProtocol) (mem : List ℕ) (len : ℕ) (part : Part) (e : Failure)
    → locate h mem ≡ ok part
    → fetch h part.payl part.payll ≡ err e
    → last_frame h p mem len ≡ err e
unfolding last_frame
last_frame-err h p mem len part e a b = rw (a, b)

pub fetch-empty : (h : WsHead) (payl : List ℕ) → h.mask ≡ 1 → fetch h (some payl) 0 ≡ err aborted
unfolding fetch
fetch-empty h payl m = rw (m, compute_un_mask_zero payl)

-- A masked last frame with no payload: the assertion of `computeUnMask` fails.
pub round_empty :
    (p : WsProtocol) (h : WsHead) (rest : List ℕ) (len : ℕ)
    → IsHead h
    → h.fin ≡ 1
    → h.mask ≡ 1
    → h.payload_len ≡ 0
    → round p (short_wire h [] ++ rest) len ≡ err aborted
round_empty p h rest len v f m l =
    round-head p h _ len v
    ∙ rw ((==_iff h.fin 1).1 f) (
        last_frame-err h p (short_wire h [] ++ rest) len
          (record { payl = some rest; payll = 0; advance = 0 + 6 }) aborted
          (unfold locate drop in rw l) (fetch-empty h rest m))

pub fetch-missing :
    (h : WsHead) (n : ℕ) (payl : List ℕ)
    → h.mask ≡ 1
    → length payl < n
    → fetch h (some payl) n ≡ err faulted
unfolding fetch
fetch-missing h n payl m e = rw (m, compute_un_mask_missing n payl e)

-- A masked last frame with a length of two bytes, of which the end is missing.
pub round_missing_long :
    (p : WsProtocol) (h : WsHead) (n : ℕ) (r : List ℕ) (len : ℕ)
    → IsHead h
    → h.fin ≡ 1
    → h.mask ≡ 1
    → h.payload_len ≡ 126
    → 0 < n
    → n < 2 ^ 16
    → length r < n + 4
    → round p (head_bytes h ++ (le16 n ++ r)) len ≡ err faulted
round_missing_long p h n r len v f m l pos small e =
    round-head p h _ len v
    ∙ rw ((==_iff h.fin 1).1 f) (
        last_frame-err h p mem len (record { payl = some (drop 8 mem); payll = n; advance = n + 8 })
          faulted located (fetch-missing h n (drop 8 mem) m (omega (arith, length-drop 8 mem))))
  where
    mem : List ℕ
    mem = head_bytes h ++ (le16 n ++ r)

    located : locate h mem ≡ ok (record { payl = some (drop 8 mem); payll = n; advance = n + 8 })
    located =
        unfold locate drop in
        rw l (
          ap
            (λ (x : Result ℕ).
              x >>= λ k. ok (record { payl = some (drop 8 mem); payll = k; advance = k + 8 }))
            (read16-le16 n r small))

-- A masked last frame with a short header, of which the end is missing.
pub round_missing :
    (p : WsProtocol) (h : WsHead) (r : List ℕ) (len : ℕ)
    → IsHead h
    → h.fin ≡ 1
    → h.mask ≡ 1
    → h.payload_len < 126
    → 0 < h.payload_len
    → length r < h.payload_len + 4
    → round p (head_bytes h ++ r) len ≡ err faulted
round_missing p h r len v f m small pos e =
    round-head p h _ len v
    ∙ rw ((==_iff h.fin 1).1 f) (
        last_frame-err h p mem len
          (record { payl = some (drop 6 mem); payll = h.payload_len; advance = h.payload_len + 6 })
          faulted (unfold locate in rw (lt→ltb h.payload_len 126 small))
          (fetch-missing h h.payload_len (drop 6 mem) m (omega (arith, length-drop 6 mem))))
  where
    mem : List ℕ
    mem = head_bytes h ++ r
