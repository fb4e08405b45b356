-- ===== src/Buffer/Receive.antt =====
-- `readfd`, and the way `NetConnection::handleRead` and its callbacks use it.
use websocket_cpp.Base.{
  ℕ, ◌+◌, ◌<◌, ◌≤◌, ◌≡◌, inr, refl, ap, sym, subst, ◌∙◌, List, ◌++◌, length, take, drop, some,
  overwrite, le→leb, lt→leb, length-take, length-drop, take-append-drop, take-all, append_assoc,
  segment_zero, length-overwrite, ok, ◌>>=◌, arith,
}
use native.Mathlib.Decide.{dec_le}
use websocket_cpp.Buffer.{
  Buffer, capacity, readable_bytes, writeable_bytes, prepend_size, read_all, reset, readv_room,
  readv_taken, readfd,
}
use websocket_cpp.Buffer.Contents.{
  contents, IsValid, length-contents, copy_to_lem, contents_extended, read_lem,
}
use websocket_cpp.Buffer.Space.{write_appends}

taken_small :
    (junk : ℕ) (b : Buffer) (bytes : List ℕ)
    → IsValid b
    → length bytes ≤ writeable_bytes b
    → (c : Buffer) × (readv_taken junk b bytes ≡ ok (some (length bytes), c))
      × IsValid c
      × (contents c ≡ contents b ++ bytes)
unfolding readv_taken
taken_small junk b bytes v h =
    let (valid, held) = contents_extended b bytes v h in
    (
      record b { mem = overwrite b.mem b.write_pos bytes; write_pos = b.write_pos + length bytes },
      rw (
        le→leb (length bytes) (writeable_bytes b) h,
        copy_to_lem b b.write_pos bytes (omega arith),
      ),
      valid,
      held,
    )

taken_large :
    (junk : ℕ) (b : Buffer) (bytes : List ℕ)
    → IsValid b
    → b.read_pos ≡ prepend_size
    → writeable_bytes b < length bytes
    → (c : Buffer) × (readv_taken junk b bytes ≡ ok (some (length bytes), c))
      × IsValid c
      × (contents c ≡ contents b ++ bytes)
unfolding readv_taken
taken_large junk b bytes v settled h =
    let n : ℕ = writeable_bytes b in
    let first : List ℕ = take n bytes in
    let len : length first ≡ n = omega (arith, length-take n bytes) in
    let (valid, held) = contents_extended b first v (omega (arith, len)) in
    let mid : Buffer = record b {
      mem = overwrite b.mem b.write_pos first;
      write_pos = b.write_pos + n;
    } in
    let same : length (overwrite b.mem b.write_pos first) ≡ capacity b =
      length-overwrite b.mem b.write_pos first (omega (arith, len)) in
    let moved : record b {
      mem = overwrite b.mem b.write_pos first;
      write_pos = b.write_pos + length first;
    }
        ≡ mid =
      ap (λ k. record b { mem = overwrite b.mem b.write_pos first; write_pos = b.write_pos + k })
        len in
    let (d, w, v', h', r) =
      write_appends junk mid (drop n bytes) (subst IsValid moved valid) (omega arith)
        (inr (omega (arith, same, length-drop n bytes))) in
    (
      d,
      rw (lt→leb (length bytes) n h, copy_to_lem b b.write_pos first (omega (arith, len)), w),
      v',
      h'
          ∙ ap (λ t. t ++ drop n bytes) (ap contents (sym moved) ∙ held)
          ∙ append_assoc (contents b) first (drop n bytes)
          ∙ ap (λ t. contents b ++ t) (take-append-drop n bytes),
    )

readv_room_lem : (b : Buffer) → 65536 ≤ readv_room b
unfolding readv_room
readv_room_lem b = ground arith

-- What `readv` took is appended, in order, also what did not fit the free storage, if nothing has been read
-- from the buffer since it was empty.
pub readv_taken_lem :
    (junk : ℕ) (b : Buffer) (bytes : List ℕ)
    → IsValid b
    → b.read_pos ≡ prepend_size
    → (c : Buffer) × (readv_taken junk b bytes ≡ ok (some (length bytes), c))
      × IsValid c
      × (contents c ≡ contents b ++ bytes)
readv_taken_lem junk b bytes v settled = elim (dec_le (length bytes) (writeable_bytes b)) [
  | yes a ↦ taken_small junk b bytes v a
  | no a ↦ taken_large junk b bytes v settled (omega arith)
]

-- At most 65536 bytes that wait are taken at once.
readfd_all :
    (junk : ℕ) (b : Buffer) (bytes : List ℕ)
    → length bytes ≤ 65536
    → readfd junk b (some bytes) ≡ readv_taken junk b bytes
unfolding readfd
readfd_all junk b bytes short =
    ap (readv_taken junk b) (take-all (readv_room b) bytes (omega (arith, readv_room_lem b)))

-- A buffer that is reset first holds exactly the bytes that waited, if these are at most 65536.
pub readfd-reset :
    (junk : ℕ) (b : Buffer) (bytes : List ℕ)
    → IsValid b
    → length bytes ≤ 65536
    → (c : Buffer) × (readfd junk (reset b) (some bytes) ≡ ok (some (length bytes), c))
      × IsValid c
      × (contents c ≡ bytes)
unfolding reset
readfd-reset junk b bytes v short =
    let empty : Buffer = record b { size = 0; read_pos = prepend_size; write_pos = prepend_size } in
    let (d, e, v', h) = readv_taken_lem junk empty bytes (omega arith) refl in
    (
      d,
      readfd_all junk empty bytes short ∙ e,
      v',
      h ∙ ap (λ t. t ++ bytes) (segment_zero prepend_size b.mem),
    )

-- `handleRead`: the buffer is reset, filled from the socket, and read out by the message callback. The
-- callback gets exactly the bytes that waited, at most 65536, whatever the buffer held before.
pub receive_exact :
    (junk : ℕ) (b : Buffer) (bytes : List ℕ)
    → IsValid b
    → length bytes ≤ 65536
    → (c : Buffer) × ((readfd junk (reset b) (some bytes) >>= λ (n, d). read_all d) ≡ ok (bytes, c))
      × IsValid c
unfolding read_all
receive_exact junk b bytes v short =
    let (d, e, v', held) = readfd-reset junk b bytes v short in
    let (c, r, v2) = read_lem d (readable_bytes d) v' (omega arith) in
    (
      c,
      rw (e, r)
          (ap (λ t. ok (t, c))
            (take-all (readable_bytes d) (contents d) (omega (arith, length-contents d v'))
              ∙ held)),
      v2.valid,
    )
