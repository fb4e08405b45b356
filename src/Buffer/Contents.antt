-- ===== src/Buffer/Contents.antt =====
-- What a buffer holds, and the operations that do not move it.
use websocket_cpp.Base.{
  ℕ, ◌+◌, ◌-◌, ◌≤◌, ◌≡◌, refl, ap, sym, ◌∙◌, List, ◌++◌, length, take, drop, segment, overwrite,
  ltb, drop-segment, take-segment, segment_zero, segment-overwrite_after, le→leb, lt→ltb, le→ltb,
  length-overwrite, length-segment, segment-add, segment-overwrite, segment-overwrite_before,
  drop-all, ok, if◌then◌else◌, arith,
}
use native.Mathlib.Decide.{dec_lt}
use mathlib.Core.Path.{ap₂}
use websocket_cpp.Buffer.{
  Buffer, capacity, readable_bytes, writeable_bytes, prepend_size, copy_to, prepend, retrieve, read,
}

abbrev pub contents : Buffer → List ℕ
contents b = segment b.read_pos (readable_bytes b) b.mem

-- The positions are in order and within the storage, which has room for what is put in front, and the
-- vector's size is within its capacity.
pub record IsValid (b : Buffer) : Type 0 where
  pub ordered : b.read_pos ≤ b.write_pos
  pub within : b.write_pos ≤ capacity b
  pub front : prepend_size ≤ capacity b
  pub sized : b.size ≤ capacity b

pub length-contents : (b : Buffer) → IsValid b → length (contents b) ≡ readable_bytes b
length-contents b v = length-segment b.read_pos (readable_bytes b) b.mem (omega arith)

pub copy_to_lem :
    (b : Buffer) (pos : ℕ) (bytes : List ℕ)
    → pos + length bytes ≤ capacity b
    → copy_to b pos bytes ≡ ok (record b { mem = overwrite b.mem pos bytes })
unfolding copy_to
copy_to_lem b pos bytes h = rw (le→leb _ _ h)

-- Bytes stored behind what is held are held behind it.
pub contents_extended :
    (b : Buffer) (bytes : List ℕ)
    → IsValid b
    → length bytes ≤ writeable_bytes b
    → let c = record b {
      mem = overwrite b.mem b.write_pos bytes;
      write_pos = b.write_pos + length bytes;
    } in
      IsValid c × (contents c ≡ contents b ++ bytes)
contents_extended b bytes v h = (
  record {
    ordered = omega arith;
    within = omega (arith, kept);
    front = omega (arith, kept);
    sized = omega (arith, kept);
  },
  ap (λ n. segment b.read_pos n written) {y = readable_bytes b + length bytes} (omega arith)
      ∙ segment-add b.read_pos (readable_bytes b) (length bytes) written
      ∙ ap₂ ◌++◌
          (segment-overwrite_before b.mem b.write_pos bytes b.read_pos (readable_bytes b)
            (omega arith) (omega arith))
          (ap (λ i. segment i (length bytes) written) {y = b.write_pos} (omega arith)
            ∙ segment-overwrite b.mem b.write_pos bytes (omega arith)),
)
  where
    written : List ℕ
    written = overwrite b.mem b.write_pos bytes

    kept : length written ≡ length b.mem
    kept = length-overwrite b.mem b.write_pos bytes (omega arith)

retrieved : Buffer → ℕ → Buffer
retrieved b len =
    if ltb len (readable_bytes b)
    then record b { read_pos = b.read_pos + len }
    else record b { read_pos = prepend_size; write_pos = prepend_size }

-- What `retrieve` leaves of a buffer.
pub record Retrieved (b : Buffer) (len : ℕ) (c : Buffer) : Type 0 where
  pub valid : IsValid c
  pub rest : contents c ≡ drop len (contents b)
  pub same_mem : c.mem ≡ b.mem
  pub same_size : c.size ≡ b.size

retrieved-Retrieved :
    (b : Buffer) (len : ℕ) → IsValid b → len ≤ readable_bytes b → Retrieved b len (retrieved b len)
unfolding retrieved
retrieved-Retrieved b len v h = elim (dec_lt len (readable_bytes b)) [
  | yes a ↦ rw (lt→ltb len (readable_bytes b) a) (record {
    valid = omega arith;
    rest = sym (
        ap (λ n. drop len (segment b.read_pos n b.mem)) {x = readable_bytes b}
          {y = len + (b.write_pos - (b.read_pos + len))} (omega arith)
        ∙ drop-segment b.read_pos len (b.write_pos - (b.read_pos + len)) b.mem (omega arith));
    same_mem = refl;
    same_size = refl;
  })
  | no a ↦ rw (le→ltb len (readable_bytes b) (omega arith)) (record {
    valid = omega arith;
    rest =
        segment_zero prepend_size b.mem
        ∙ sym (drop-all len (contents b) (omega (arith, length-contents b v)));
    same_mem = refl;
    same_size = refl;
  })
]

-- `retrieve` drops the bytes it is told to, `read` gives them out too.
pub retrieve_lem :
    (b : Buffer) (len : ℕ)
    → IsValid b
    → len ≤ readable_bytes b
    → (c : Buffer) × (retrieve b len ≡ ok c) × Retrieved b len c
unfolding retrieve retrieved
retrieve_lem b len v h =
    (retrieved b len, rw (le→leb len (readable_bytes b) h), retrieved-Retrieved b len v h)

-- `read` of at most the readable bytes yields the first of them and leaves the others.
pub read_lem :
    (b : Buffer) (len : ℕ)
    → IsValid b
    → len ≤ readable_bytes b
    → (c : Buffer) × (read b len ≡ ok (take len (contents b), c)) × Retrieved b len c
unfolding read
read_lem b len v h =
    let (c, e, r) = retrieve_lem b len v h in
    (
      c,
      rw (le→leb len (readable_bytes b) h, le→leb (b.read_pos + len) (capacity b) (omega arith), e)
          (ap (λ t. ok (t, c)) taken),
      r,
    )
  where
    taken : segment b.read_pos len b.mem ≡ take len (contents b)
    taken = sym (
        ap (λ n. take len (segment b.read_pos n b.mem)) {x = readable_bytes b}
          {y = len + (readable_bytes b - len)} (omega arith)
        ∙ take-segment b.read_pos len (readable_bytes b - len) b.mem (omega arith))

-- What `prepend` puts in front comes first, if there is room for it before `readPos_`.
pub prepend_lem :
    (b : Buffer) (bytes : List ℕ)
    → IsValid b
    → length bytes ≤ b.read_pos
    → (c : Buffer) × (prepend b bytes ≡ ok c) × IsValid c × (contents c ≡ bytes ++ contents b)
unfolding prepend
prepend_lem b bytes v h = (
  record b { mem = written; read_pos = start },
  rw (
    le→leb (length bytes) b.read_pos h,
    copy_to_lem (record b { read_pos = start }) start bytes (omega arith),
  ),
  record {
    ordered = omega arith;
    within = omega (arith, kept);
    front = omega (arith, kept);
    sized = omega (arith, kept);
  },
  ap (λ n. segment start n written) {y = length bytes + readable_bytes b} (omega arith)
      ∙ segment-add start (length bytes) (readable_bytes b) written
      ∙ ap₂ ◌++◌ (segment-overwrite b.mem start bytes (omega arith)) (
          ap (λ i. segment i (readable_bytes b) written) {y = b.read_pos} (omega arith)
          ∙ segment-overwrite_after b.mem start bytes b.read_pos (readable_bytes b) (omega arith)
              (omega arith)),
)
  where
    start : ℕ
    start = b.read_pos - length bytes

    written : List ℕ
    written = overwrite b.mem start bytes

    kept : length written ≡ length b.mem
    kept = length-overwrite b.mem start bytes (omega arith)
