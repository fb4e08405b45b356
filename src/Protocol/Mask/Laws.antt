-- ===== src/Protocol/Mask/Laws.antt =====
-- Masking is its own inverse, keeps the length and yields bytes.
use mathlib.Core.Path.{ap₂}
use websocket_cpp.Base.{
  passes, passes_sound, ℕ, zero, suc, ◌+◌, ◌%◌, ◌^◌, ◌<◌, ◌≡◌, refl, ap, sym, List, [], ◌∷◌, ◌++◌,
  Bool, true, bit_xor, length, get_or, ◌==◌, ==_iff, lt→ltb, le→leb, take-all, drop-all,
  take-append_of_eq, length-append, drop-append_of_eq, append-nil, ok, err, aborted, faulted,
  lt→leb, ◌>>=◌, arith,
}
use websocket_cpp.Protocol.Mask.{mask_table, mask_at, mask_from, compute_mask, compute_un_mask}

-- Every element is a byte.
abbrev pub IsBytes : List ℕ → Type 0
IsBytes [] = Unit
IsBytes (x ∷ xs) = (x < 256) × IsBytes xs

abbrev toggles : ℕ → ℕ → Bool
toggles m x = x == bit_xor (bit_xor x m % 2 ^ 8) m % 2 ^ 8

-- By evaluation, for each of the four bytes of the mask.
toggle_key : (r x : ℕ) → r < 4 → x < 256 → toggles (get_or mask_table r 0) x ≡ true
unfolding passes
toggle_key zero x hr hx = passes_sound (toggles 0x02) 256 x hx refl
toggle_key (suc zero) x hr hx = passes_sound (toggles 0x08) 256 x hx refl
toggle_key (suc (suc zero)) x hr hx = passes_sound (toggles 0x20) 256 x hx refl
toggle_key (suc (suc (suc zero))) x hr hx = passes_sound (toggles 0x80) 256 x hx refl
toggle_key (suc (suc (suc (suc r)))) x hr hx = absurd (omega arith)

toggle_byte : (i x : ℕ) → x < 256 → bit_xor (bit_xor x (mask_at i) % 2 ^ 8) (mask_at i) % 2 ^ 8 ≡ x
toggle_byte i x h = sym ((==_iff x _).0 (toggle_key (i % 4) x (omega arith) h))

pub mask_from-mask_from : (i : ℕ) (xs : List ℕ) → IsBytes xs → mask_from i (mask_from i xs) ≡ xs
unfolding mask_from
mask_from-mask_from i [] h = refl
mask_from-mask_from i (x ∷ xs) h =
    ap₂ ◌∷◌ (toggle_byte i x h.0) (mask_from-mask_from (i + 1) xs h.1)

pub length-mask_from : (i : ℕ) (xs : List ℕ) → length (mask_from i xs) ≡ length xs
unfolding mask_from
length-mask_from i [] = refl
length-mask_from i (x ∷ xs) = ap suc (length-mask_from (i + 1) xs)

pub mask_from-IsBytes : (i : ℕ) (xs : List ℕ) → IsBytes (mask_from i xs)
unfolding mask_from
mask_from-IsBytes i [] = tt
mask_from-IsBytes i (x ∷ xs) = (omega arith, mask_from-IsBytes (i + 1) xs)

-- What `computeMask` does to an array of exactly `len` bytes.
pub compute_mask_lem :
    (xs : List ℕ) → 0 < length xs → compute_mask xs (length xs) ≡ ok (mask_from 0 xs)
unfolding compute_mask
compute_mask_lem xs h = rw (
  lt→ltb 0 (length xs) h,
  le→leb (length xs) (length xs) (omega arith),
  take-all (length xs) xs (omega arith),
  drop-all (length xs) xs (omega arith),
  append-nil,
)

-- What `computeUnMask` does to the first `n` bytes of a longer array.
pub compute_un_mask_lem :
    (n : ℕ) (xs ys : List ℕ)
    → length xs ≡ n
    → 0 < n
    → compute_un_mask (xs ++ ys) n ≡ ok (mask_from 0 xs ++ ys)
unfolding compute_un_mask
compute_un_mask_lem n xs ys e h = rw (
  lt→ltb 0 n h,
  le→leb n (length (xs ++ ys)) (omega (arith, length-append xs ys)),
  take-append_of_eq n xs ys e,
  drop-append_of_eq n xs ys e,
)

-- `computeUnMask` undoes `computeMask` on every non-empty array of bytes.
pub compute_un_mask-compute_mask :
    (xs : List ℕ)
    → IsBytes xs
    → 0 < length xs
    → (compute_mask xs (length xs) >>= λ ys. compute_un_mask ys (length xs)) ≡ ok xs
compute_un_mask-compute_mask xs b h = rw (
  compute_mask_lem xs h,
  ← append-nil (mask_from 0 xs),
  compute_un_mask_lem (length xs) (mask_from 0 xs) [] (length-mask_from 0 xs) h,
  mask_from-mask_from 0 xs b,
  append-nil xs,
)

-- The assertions of both functions refuse a length of 0.
pub compute_un_mask_zero : (xs : List ℕ) → compute_un_mask xs 0 ≡ err aborted
unfolding compute_un_mask
compute_un_mask_zero xs = refl

pub compute_mask_zero : (xs : List ℕ) → compute_mask xs 0 ≡ err aborted
unfolding compute_mask
compute_mask_zero xs = refl

pub compute_un_mask_missing :
    (n : ℕ) (xs : List ℕ) → length xs < n → compute_un_mask xs n ≡ err faulted
unfolding compute_un_mask
compute_un_mask_missing n xs h = rw (lt→ltb 0 n (omega arith), lt→leb n (length xs) h)
