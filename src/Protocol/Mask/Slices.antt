-- ===== src/Protocol/Mask/Slices.antt =====
-- Masking a payload whole and unmasking it in pieces: the mask of a part that begins at a multiple
-- of four is a part of the mask.
use mathlib.Core.Path.{ap₂}
use websocket_cpp.Base.{
  ◌∙◌, get_or, ℕ, zero, suc, ◌+◌, ◌%◌, ◌*◌, ◌^◌, ◌≡◌, refl, ap, List, [], ◌∷◌, bit_xor, take, drop,
  arith,
}
use websocket_cpp.Protocol.Mask.{mask_table, mask_at, mask_from}

mask_from-take : (n i : ℕ) (xs : List ℕ) → take n (mask_from i xs) ≡ mask_from i (take n xs)
unfolding mask_from take
mask_from-take zero i xs = refl
mask_from-take (suc n) i [] = refl
mask_from-take (suc n) i (x ∷ xs) =
    ap (λ t. (bit_xor x (mask_at i) % 2 ^ 8) ∷ t) (mask_from-take n (i + 1) xs)

mask_from-drop : (n i : ℕ) (xs : List ℕ) → drop n (mask_from i xs) ≡ mask_from (i + n) (drop n xs)
unfolding mask_from drop
mask_from-drop zero i xs = ap (λ k. mask_from k xs) {y = i + 0} (omega arith)
mask_from-drop (suc n) i [] = refl
mask_from-drop (suc n) i (x ∷ xs) =
    rw (mask_from-drop n (i + 1) xs)
      (ap (λ k. mask_from k (drop n xs)) {x = i + 1 + n} {y = i + suc n} (omega arith))

mask_from-shift : (k i : ℕ) (xs : List ℕ) → mask_from (4 * k + i) xs ≡ mask_from i xs
unfolding mask_from
mask_from-shift k i [] = refl
mask_from-shift k i (x ∷ xs) =
    ap₂ ◌∷◌
      (ap (λ r. bit_xor x (get_or mask_table r 0) % 2 ^ 8) {x = (4 * k + i) % 4} {y = i % 4}
        (omega arith))
      (ap (λ j. mask_from j xs) {x = 4 * k + i + 1} {y = 4 * k + (i + 1)} (omega arith)
        ∙ mask_from-shift k (i + 1) xs)

-- A piece of the masked payload that begins at a multiple of four is the masked piece.
pub mask_from_piece :
    (k n : ℕ) (xs : List ℕ)
    → take n (drop (4 * k) (mask_from 0 xs)) ≡ mask_from 0 (take n (drop (4 * k) xs))
mask_from_piece k n xs =
    ap (take n) (mask_from-drop (4 * k) 0 xs ∙ re_index) ∙ mask_from-take n 0 (drop (4 * k) xs)
  where
    re_index : mask_from (0 + 4 * k) (drop (4 * k) xs) ≡ mask_from 0 (drop (4 * k) xs)
    re_index =
        ap (λ j. mask_from j (drop (4 * k) xs)) {x = 0 + 4 * k} {y = 4 * k + 0} (omega arith)
        ∙ mask_from-shift k 0 (drop (4 * k) xs)
