-- ===== src/Buffer/Tests.antt =====
-- Buffers with eighteen bytes of storage.
use websocket_cpp.Base.{
  ◌≤◌, ◌≡◌, inr, refl, [], ◌∷◌, ◌++◌, take, drop, replicate, overwrite, segment, ok, ◌>>=◌, arith,
}
use websocket_cpp.Buffer.{
  Buffer, prepend_size, copy_to, new_space, ensure_writable_bytes, has_written, write, read,
  read_all, retrieve,
}
use websocket_cpp.Buffer.Contents.{contents, IsValid}
use websocket_cpp.Buffer.Space.{write_appends}

-- Three bytes are held, behind an index that allows another write of nine bytes to slide them.
abbrev sliding : Buffer
sliding = record {
  mem = 0 ∷ 0 ∷ 0 ∷ 0 ∷ 0 ∷ 0 ∷ 0 ∷ 0 ∷ 91 ∷ 92 ∷ 93 ∷ 94 ∷ 95 ∷ 96 ∷ 1 ∷ 2 ∷ 3 ∷ 0 ∷ [];
  size = 0;
  read_pos = 14;
  write_pos = 17;
}

sliding-IsValid : IsValid sliding
sliding-IsValid = omega arith

-- `1 2 3` was to come first.
slide_loses :
    (write 7 sliding (4 ∷ 5 ∷ []) >>= λ d. read_all d >>= λ (bytes, e). ok bytes)
    ≡ ok (0 ∷ 0 ∷ 0 ∷ 4 ∷ 5 ∷ [])
unfolding write ensure_writable_bytes new_space copy_to has_written read_all read retrieve segment
    overwrite take drop
slide_loses = refl

-- Twenty bytes, for which the storage is enlarged.
write_appends_example :
    (d : Buffer) × (write 7 sliding (replicate 20 5) ≡ ok d)
    × IsValid d
    × (contents d ≡ contents sliding ++ replicate 20 5)
    × (prepend_size ≤ d.read_pos)
unfolding replicate
write_appends_example =
    write_appends 7 sliding (replicate 20 5) sliding-IsValid (omega arith) (inr (omega arith))
