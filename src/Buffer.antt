-- ===== src/Buffer.antt =====
-- `Buffer` of base/Buffer.h and base/Buffer.cpp. `mem` is the storage of the `std::vector`, as long
-- as its capacity, and `size` its size: the class writes past the size, within the capacity.
-- Positions are `int` that never fall below 0, and `readPos_ <= writePos_ <= capacity()` holds
-- throughout (`IsValid`), so the differences are never negative.
pub mod Contents
pub mod Space
pub mod Receive
mod Tests
use websocket_cpp.Base.{
  ℕ, ◌+◌, ◌-◌, ◌*◌, max, List, [], ◌++◌, length, take, drop, replicate, segment, overwrite, ltb,
  leb, if◌then◌else◌, Option, none, some, Result, ok, ◌>>=◌, ◌>>◌, assert, in_range,
}

abbrev pub prepend_size : ℕ
prepend_size = 8

abbrev pub initial_size : ℕ
initial_size = 1024 * 4

pub record Buffer : Type 0 where
  pub mem : List ℕ
  pub size : ℕ
  pub read_pos : ℕ
  pub write_pos : ℕ

-- What freshly allocated memory holds is not determined: it is `junk` throughout.
pub new_buffer : ℕ → Buffer
new_buffer junk = record {
  mem = replicate (prepend_size + initial_size) junk;
  size = 0;
  read_pos = prepend_size;
  write_pos = prepend_size;
}

abbrev pub capacity : Buffer → ℕ
capacity b = length b.mem

abbrev pub readable_bytes : Buffer → ℕ
readable_bytes b = b.write_pos - b.read_pos

abbrev pub writeable_bytes : Buffer → ℕ
writeable_bytes b = capacity b - b.write_pos

-- `std::vector::resize` of libstdc++: within the capacity it fills up with zeros; beyond it, it moves
-- the `size` elements to new storage of at least twice the size.
pub resize : ℕ → Buffer → ℕ → Buffer
resize junk b n =
    if leb n (capacity b)
    then record b {
      mem = if ltb b.size n then overwrite b.mem b.size (replicate (n - b.size) 0) else b.mem;
      size = n;
    }
    else record b {
      mem =
          take b.size b.mem
          ++ (replicate (n - b.size) 0 ++ replicate (b.size + max b.size (n - b.size) - n) junk);
      size = n;
    }

-- `std::copy` to the storage, which has to hold what is copied.
pub copy_to : Buffer → ℕ → List ℕ → Result Buffer
copy_to b pos bytes = do
  in_range (leb (pos + length bytes) (capacity b))
  ok (record b { mem = overwrite b.mem pos bytes })

pub prepend : Buffer → List ℕ → Result Buffer
prepend b bytes = do
  assert (leb (length bytes) b.read_pos)
  copy_to (record b { read_pos = b.read_pos - length bytes }) (b.read_pos - length bytes) bytes

pub retrieve : Buffer → ℕ → Result Buffer
retrieve b len = do
  assert (leb len (readable_bytes b))
  ok (
      if ltb len (readable_bytes b)
      then record b { read_pos = b.read_pos + len }
      else record b { read_pos = prepend_size; write_pos = prepend_size })

-- `buffer_.clear()` keeps the storage.
pub reset : Buffer → Buffer
reset b = record b { size = 0; read_pos = prepend_size; write_pos = prepend_size }

pub read : Buffer → ℕ → Result (List ℕ × Buffer)
read b len = do
  assert (leb len (readable_bytes b))
  in_range (leb (b.read_pos + len) (capacity b))
  c ← retrieve b len
  ok (segment b.read_pos len b.mem, c)

pub read_all : Buffer → Result (List ℕ × Buffer)
read_all b = read b (readable_bytes b)

pub has_written : Buffer → ℕ → Result Buffer
has_written b len = do
  assert (leb len (writeable_bytes b))
  ok (record b { write_pos = b.write_pos + len })

-- The first branch moves the data to larger storage. The second moves it to the front, and then
-- sets `readPos_` to 0.
pub new_space : ℕ → Buffer → ℕ → Result Buffer
new_space junk b len =
    if ltb (writeable_bytes b + b.read_pos) (len + prepend_size)
    then (do
      (bytes, c) ← read b (readable_bytes b)
      d ← copy_to (resize junk c (b.write_pos + len)) prepend_size bytes
      ok (record d { read_pos = prepend_size; write_pos = prepend_size + readable_bytes b }))
    else (do
      d ← copy_to b prepend_size (segment b.read_pos (readable_bytes b) b.mem)
      ok (record d { read_pos = 0; write_pos = readable_bytes b }))

pub ensure_writable_bytes : ℕ → Buffer → ℕ → Result Buffer
ensure_writable_bytes junk b len =
    if ltb (writeable_bytes b) len then new_space junk b len else ok b

pub write : ℕ → Buffer → List ℕ → Result Buffer
write junk b bytes = do
  c ← ensure_writable_bytes junk b (length bytes)
  assert (leb (length bytes) (writeable_bytes c))
  d ← copy_to c c.write_pos bytes
  has_written d (length bytes)

-- What one `readv` can take: the free storage and, if that is smaller, a second array of 65536 bytes.
pub readv_room : Buffer → ℕ
readv_room b =
    if ltb (writeable_bytes b) 65536 then writeable_bytes b + 65536 else writeable_bytes b

-- What `readfd` does with the bytes that `readv` took
pub readv_taken : ℕ → Buffer → List ℕ → Result (Option ℕ × Buffer)
readv_taken junk b bytes =
    if leb (length bytes) (writeable_bytes b)
    then (do
      c ← copy_to b b.write_pos bytes
      ok (some (length bytes), record c { write_pos = c.write_pos + length bytes }))
    else (do
      c ← copy_to b b.write_pos (take (writeable_bytes b) bytes)
      d ←
          write junk (record c { write_pos = c.write_pos + writeable_bytes b })
            (drop (writeable_bytes b) bytes)
      ok (some (length bytes), d))

-- `waiting` is what the system has for the descriptor: `none` for an error, else the bytes, of which
-- `readv` takes as many as there is room for. The result is that of `readfd`, none for -1.
pub readfd : ℕ → Buffer → Option (List ℕ) → Result (Option ℕ × Buffer)
readfd junk b none = ok (none, b)
readfd junk b (some waiting) = readv_taken junk b (take (readv_room b) waiting)
