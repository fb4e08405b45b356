-- ===== src/Buffer/Space.antt =====
-- `newSpace` and `write`.
use websocket_cpp.Base.{
  ℕ, ◌+◌, ◌-◌, ◌<◌, ◌≤◌, ◌≡◌, ◌⊎◌, refl, ap, sym, ◌∙◌, max, List, ◌++◌, length, take, drop, segment,
  overwrite, replicate, le→leb, lt→ltb, le→ltb, lt→leb, length-append, length-take,
  length-replicate, length-overwrite, segment-overwrite, take-all, take-append_le, append_assoc, ok,
  arith,
}
use native.Mathlib.Decide.{dec_lt, dec_le}
use websocket_cpp.Buffer.{
  Buffer, capacity, readable_bytes, writeable_bytes, prepend_size, resize, new_space,
  ensure_writable_bytes, write, has_written,
}
use websocket_cpp.Buffer.Contents.{
  contents, IsValid, length-contents, copy_to_lem, contents_extended, read_lem,
}

-- The storage is long enough after a `resize` to `n`.
resize-capacity :
    (junk : ℕ) (b : Buffer) (n : ℕ) → b.size ≤ capacity b → n ≤ capacity (resize junk b n)
unfolding resize
resize-capacity junk b n fits = elim (dec_le n (capacity b)) [
  | yes a ↦ elim (dec_lt b.size n) [
    | yes c ↦
        rw (le→leb n (capacity b) a, lt→ltb b.size n c)
          (omega (
            arith,
            length-overwrite b.mem b.size (replicate (n - b.size) 0)
                (omega (arith, length-replicate {A = ℕ} (n - b.size) 0)),
          ))
    | no c ↦ rw (le→leb n (capacity b) a, le→ltb b.size n (omega arith)) a
  ]
  | no a ↦ rw (lt→leb n (capacity b) (omega arith)) (
      omega (
        arith,
        length-append (take b.size b.mem)
            (replicate (n - b.size) 0 ++ replicate (b.size + max b.size (n - b.size) - n) junk),
        length-append (replicate (n - b.size) 0)
            (replicate (b.size + max b.size (n - b.size) - n) junk),
        length-take b.size b.mem,
        length-replicate {A = ℕ} (n - b.size) 0,
        length-replicate (b.size + max b.size (n - b.size) - n) junk,
      ))
]

resize-size : (junk : ℕ) (b : Buffer) (n : ℕ) → (resize junk b n).size ≡ n
unfolding resize
resize-size junk b n = ground arith

module _ (junk : ℕ) (b : Buffer) (len : ℕ) (v : IsValid b) (full : writeable_bytes b < len) where
  -- The first branch of `newSpace`: larger storage, the same contents, if the read position is not
  -- below 8; else the contents may not fit at index 8.
  new_space_grow :
      prepend_size ≤ b.read_pos
      → writeable_bytes b + b.read_pos < len + prepend_size
      → (c : Buffer) × (new_space junk b len ≡ ok c)
        × IsValid c
        × (contents c ≡ contents b)
        × (len ≤ writeable_bytes c)
        × (c.read_pos ≡ prepend_size)
  unfolding new_space
  new_space_grow settled grows =
      let (c, e, r) = read_lem b (readable_bytes b) v (omega arith) in
      let held : take (readable_bytes b) (contents b) ≡ contents b =
        take-all (readable_bytes b) (contents b) (omega (arith, length-contents b v)) in
      let d = resize junk c (b.write_pos + len) in
      let long = resize-capacity junk c (b.write_pos + len) r.valid.sized in
      let room : prepend_size + length (contents b) ≤ capacity d =
        omega (arith, long, length-contents b v) in
      let same : length (overwrite d.mem prepend_size (contents b)) ≡ capacity d =
        length-overwrite d.mem prepend_size (contents b) room in
      (
        record d {
          mem = overwrite d.mem prepend_size (contents b);
          read_pos = prepend_size;
          write_pos = prepend_size + readable_bytes b;
        },
        rw (
          lt→ltb (writeable_bytes b + b.read_pos) (len + prepend_size) grows,
          e,
          held,
          copy_to_lem d prepend_size (contents b) room,
        ),
        record {
          ordered = omega arith;
          within = omega (arith, same, room, length-contents b v);
          front = omega (arith, same, room);
          sized = omega (arith, same, resize-size junk c (b.write_pos + len), long);
        },
        ap (λ n. segment prepend_size n (overwrite d.mem prepend_size (contents b)))
              {y = length (contents b)} (omega (arith, length-contents b v))
            ∙ segment-overwrite d.mem prepend_size (contents b) (omega (arith, room)),
        omega (arith, same, long),
        refl,
      )

  -- The second branch: the contents are moved to index 8, and `readPos_` is set to 0, so the eight
  -- bytes in front are taken for contents, and the last ones held are not.
  new_space_slide :
      len + prepend_size ≤ writeable_bytes b + b.read_pos
      → (c : Buffer) × (new_space junk b len ≡ ok c)
        × IsValid c
        × (contents c ≡ take (readable_bytes b) (take prepend_size b.mem ++ contents b))
        × (len ≤ writeable_bytes c)
  unfolding new_space
  new_space_slide slides =
      let room : prepend_size + length (contents b) ≤ capacity b =
        omega (arith, length-contents b v) in
      let moved : List ℕ = overwrite b.mem prepend_size (contents b) in
      let same : length moved ≡ capacity b =
        length-overwrite b.mem prepend_size (contents b) room in
      (
        record b { mem = moved; read_pos = 0; write_pos = readable_bytes b },
        rw (
          le→ltb (writeable_bytes b + b.read_pos) (len + prepend_size) slides,
          copy_to_lem b prepend_size (contents b) room,
        ),
        record {
          ordered = omega arith;
          within = omega (arith, same);
          front = omega (arith, same);
          sized = omega (arith, same);
        },
        ap (λ n. segment 0 n moved) {y = readable_bytes b} (omega arith)
            ∙ unfold segment overwrite drop in
              (ap (take (readable_bytes b))
                  (sym (append_assoc (take prepend_size b.mem) (contents b) _))
                ∙ take-append_le (readable_bytes b) (take prepend_size b.mem ++ contents b) _ (
                    omega (
                      arith,
                      length-append (take prepend_size b.mem) (contents b),
                      length-contents b v,
                    ))),
        omega (arith, same),
      )

module _ (junk : ℕ) (b : Buffer) (bytes : List ℕ) where
  abbrev n : ℕ
  n = length bytes

  -- With room made, `write` appends.
  write_after :
      (c : Buffer)
      → ensure_writable_bytes junk b n ≡ ok c
      → IsValid c
      → n ≤ writeable_bytes c
      → (d : Buffer) × (write junk b bytes ≡ ok d)
        × IsValid d
        × (contents d ≡ contents c ++ bytes)
        × (d.read_pos ≡ c.read_pos)
  unfolding write has_written
  write_after c e v room =
      let (valid, held) = contents_extended c bytes v room in
      let same : length (overwrite c.mem c.write_pos bytes) ≡ capacity c =
        length-overwrite c.mem c.write_pos bytes (omega arith) in
      (
        record c { mem = overwrite c.mem c.write_pos bytes; write_pos = c.write_pos + n },
        rw (
          e,
          le→leb n (writeable_bytes c) room,
          copy_to_lem c c.write_pos bytes (omega arith),
          same,
          le→leb n (writeable_bytes c) room,
        ),
        valid,
        held,
        refl,
      )

  -- `write` appends to what is held, wherever the data is not slid to the front: there is room, or
  -- the storage is enlarged. The read position has to be at 8 or above.
  pub write_appends :
      IsValid b
      → prepend_size ≤ b.read_pos
      → (n ≤ writeable_bytes b) ⊎ (writeable_bytes b + b.read_pos < n + prepend_size)
      → (d : Buffer) × (write junk b bytes ≡ ok d)
        × IsValid d
        × (contents d ≡ contents b ++ bytes)
        × (prepend_size ≤ d.read_pos)
  unfolding ensure_writable_bytes
  write_appends v settled way = elim (dec_le n (writeable_bytes b)) [
    | yes a ↦
        let (d, w, v', h, r) = write_after b (rw (le→ltb (writeable_bytes b) n a)) v a in
        (d, w, v', h, rw r settled)
    | no a ↦
        let (c, e, v', h, room, r) =
          new_space_grow junk b n v (omega arith) settled (omega arith) in
        let (d, w, v2, h2, r2) =
          write_after c (rw (lt→ltb (writeable_bytes b) n (omega arith)) e) v' room in
        (d, w, v2, h2 ∙ ap (λ t. t ++ bytes) h, omega arith)
  ]

  -- Where `write` slides the data to the front, the old bytes are replaced by as many bytes of the
  -- eight in front of the storage followed by the old bytes; the new bytes come behind.
  pub write_slides :
      IsValid b
      → writeable_bytes b < n
      → n + prepend_size ≤ writeable_bytes b + b.read_pos
      → (d : Buffer) × (write junk b bytes ≡ ok d)
        × IsValid d
        × (contents d ≡ take (readable_bytes b) (take prepend_size b.mem ++ contents b) ++ bytes)
  unfolding ensure_writable_bytes
  write_slides v full slides =
      let (c, e, v', h, room) = new_space_slide junk b n v full slides in
      let (d, w, v2, h2, r2) = write_after c (rw (lt→ltb (writeable_bytes b) n full) e) v' room in
      (d, w, v2, h2 ∙ ap (λ t. t ++ bytes) h)
