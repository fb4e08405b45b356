-- ===== src/Protocol/Decode/Loop.antt =====
-- The loop of `decodeFrame` one round at a time, and the gathering of fragments.
use websocket_cpp.Base.{
  sym, ℕ, zero, suc, ◌+◌, ◌<◌, ◌≤◌, ◌≡◌, refl, ap, ◌∙◌, List, [], ◌∷◌, ◌++◌, map, length, take,
  drop, le→leb, lt→ltb, take-append_of_eq, length-append, length-take, length-drop, append_assoc,
  ok, err, Failure, arith,
}
use websocket_cpp.Protocol.Decode.{
  WsProtocol, Turn, returned, failed, gathered, append_frame, clear_frame, round, decode_loop,
  prepend, max_framesize, decode_frame,
}

pub decode_frame-eq :
    (f : ℕ) (p : WsProtocol) (mem : List ℕ) (len : ℕ)
    → len < max_framesize
    → decode_frame f p mem len ≡ decode_loop f p mem len
unfolding decode_frame
decode_frame-eq f p mem len h = rw (lt→ltb len max_framesize h)

module _ (f : ℕ) (p : WsProtocol) (mem : List ℕ) (len : ℕ) where
  -- The last round: nothing of `len` is left.
  pub decode_loop-stop :
      (t : Turn)
      → round p mem len ≡ ok t
      → t.len ≡ 0
      → decode_loop (suc f) p mem len
        ≡ record { proto = t.proto; calls = t.calls; status = returned }
  unfolding decode_loop
  decode_loop-stop t e z = rw (e, decode_loop) (ground arith)

  pub decode_loop-more :
      (t : Turn)
      → round p mem len ≡ ok t
      → 0 < t.len
      → decode_loop (suc f) p mem len ≡ prepend t.calls (decode_loop f t.proto t.mem t.len)
  unfolding decode_loop
  decode_loop-more t e z = rw (e, decode_loop) (ground arith)

  pub decode_loop-err :
      (e : Failure)
      → round p mem len ≡ err e
      → decode_loop (suc f) p mem len ≡ record { proto = p; calls = []; status = failed e }
  unfolding decode_loop
  decode_loop-err e h = rw (h, decode_loop)

-- `q` holds `bytes` behind what `p` had gathered, in an array of the same size.
pub record Appended (p : WsProtocol) (bytes : List ℕ) (q : WsProtocol) : Type 0 where
  pub appended : append_frame p bytes ≡ ok q
  pub pos : q.frame_pos ≡ p.frame_pos + length bytes
  pub same_size : length q.frame_buff ≡ length p.frame_buff
  pub contents : gathered q ≡ gathered p ++ bytes

-- Bytes that fit the array are appended.
pub append_frame-Appended :
    (p : WsProtocol) (bytes : List ℕ)
    → p.frame_pos + length bytes ≤ length p.frame_buff
    → (q : WsProtocol) × Appended p bytes q
unfolding append_frame
append_frame-Appended p bytes h = (
  q,
  record {
    appended = rw (le→leb _ _ h);
    pos = refl;
    same_size = omega (
      arith,
      length-append before (bytes ++ behind),
      length-append bytes behind,
      length-take p.frame_pos p.frame_buff,
      length-drop (p.frame_pos + length bytes) p.frame_buff,
    );
    contents =
        ap (take q.frame_pos) (sym (append_assoc before bytes behind))
        ∙ take-append_of_eq q.frame_pos (before ++ bytes) behind
            (omega (arith, length-append before bytes, length-take p.frame_pos p.frame_buff));
  },
)
  where
    before : List ℕ
    before = take p.frame_pos p.frame_buff

    behind : List ℕ
    behind = drop (p.frame_pos + length bytes) p.frame_buff

    q : WsProtocol
    q = record { frame_buff = before ++ (bytes ++ behind); frame_pos = p.frame_pos + length bytes }

length-zeros : (xs : List ℕ) → length (map (λ (x : ℕ). zero) xs) ≡ length xs
length-zeros [] = refl
length-zeros (x ∷ xs) = ap suc (length-zeros xs)

-- A cleared array has its size, and nothing is gathered in it.
pub clear_frame_lem :
    (p : WsProtocol)
    → ((clear_frame p).frame_pos ≡ 0)
      × (length (clear_frame p).frame_buff ≡ length p.frame_buff)
      × (gathered (clear_frame p) ≡ [])
unfolding clear_frame take
clear_frame_lem p = (refl, length-zeros p.frame_buff, refl)
