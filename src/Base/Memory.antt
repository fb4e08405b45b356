-- ===== src/Base/Memory.antt =====
-- Pieces of an array: what lies in one, and writing over one.
use Prim.Native.Nat.{ℕ, ◌+◌, ◌-◌, ◌≤◌}
use native.Mathlib.Omega.{arith}
use mathlib.Core.Path.{◌≡◌, refl, ap, sym, ◌∙◌}
use mathlib.Core.List.{List, [], ◌++◌}
use websocket_cpp.Base.Lists.{
  length, take, drop, length-append, length-take, length-drop, take-append_of_eq, drop-append_of_eq,
  take-append-drop, take-add, drop-add, take-append_le, drop-append_le,
}

module _ {ℓ} {A : Type ℓ} where
  -- The `n` elements from index `i` on.
  unfoldable pub segment : ℕ → ℕ → List A → List A
  segment i n xs = take n (drop i xs)

  -- `std::copy(ys.begin(), ys.end(), xs + i)`, where it fits.
  unfoldable pub overwrite : List A → ℕ → List A → List A
  overwrite xs i ys = take i xs ++ (ys ++ drop (i + length ys) xs)

  pub length-segment : (i n : ℕ) (xs : List A) → i + n ≤ length xs → length (segment i n xs) ≡ n
  unfolding segment
  length-segment i n xs h = omega (arith, length-take n (drop i xs), length-drop i xs)

  pub length-overwrite :
      (xs : List A) (i : ℕ) (ys : List A)
      → i + length ys ≤ length xs
      → length (overwrite xs i ys) ≡ length xs
  unfolding overwrite
  length-overwrite xs i ys h = omega (
    arith,
    length-append (take i xs) (ys ++ drop (i + length ys) xs),
    length-append ys (drop (i + length ys) xs),
    length-take i xs,
    length-drop (i + length ys) xs,
  )

  pub segment-add :
      (i m n : ℕ) (xs : List A) → segment i (m + n) xs ≡ segment i m xs ++ segment (i + m) n xs
  unfolding segment
  segment-add i m n xs =
      take-add m n (drop i xs) ∙ ap (λ t. take m (drop i xs) ++ take n t) (sym (drop-add i m xs))

  -- A piece before the written one is as it was.
  pub segment-overwrite_before :
      (xs : List A) (i : ℕ) (ys : List A) (j n : ℕ)
      → i ≤ length xs
      → j + n ≤ i
      → segment j n (overwrite xs i ys) ≡ segment j n xs
  unfolding segment overwrite
  segment-overwrite_before xs i ys j n fits h =
      ap (take n) (drop-append_le j (take i xs) _ (omega (arith, length-take i xs)))
      ∙ take-append_le n (drop j (take i xs)) _
          (omega (arith, length-drop j (take i xs), length-take i xs))
      ∙ sym (
          ap (λ t. take n (drop j t)) (sym (take-append-drop i xs))
          ∙ ap (take n) (drop-append_le j (take i xs) (drop i xs) (omega (arith, length-take i xs)))
          ∙ take-append_le n (drop j (take i xs)) (drop i xs)
              (omega (arith, length-drop j (take i xs), length-take i xs)))

  -- The written piece.
  pub segment-overwrite :
      (xs : List A) (i : ℕ) (ys : List A)
      → i ≤ length xs
      → segment i (length ys) (overwrite xs i ys) ≡ ys
  unfolding segment overwrite
  segment-overwrite xs i ys h =
      ap (take (length ys)) (drop-append_of_eq i (take i xs) _ (omega (arith, length-take i xs)))
      ∙ take-append_of_eq (length ys) ys (drop (i + length ys) xs) refl

  pub drop-segment :
      (i m n : ℕ) (xs : List A)
      → i + m ≤ length xs
      → drop m (segment i (m + n) xs) ≡ segment (i + m) n xs
  drop-segment i m n xs h =
      ap (drop m) (segment-add i m n xs)
      ∙ drop-append_of_eq m (segment i m xs) (segment (i + m) n xs) (length-segment i m xs h)

  pub take-segment :
      (i m n : ℕ) (xs : List A) → i + m ≤ length xs → take m (segment i (m + n) xs) ≡ segment i m xs
  take-segment i m n xs h =
      ap (take m) (segment-add i m n xs)
      ∙ take-append_of_eq m (segment i m xs) (segment (i + m) n xs) (length-segment i m xs h)

  pub segment_zero : (i : ℕ) (xs : List A) → segment i 0 xs ≡ []
  unfolding segment take
  segment_zero i xs = refl

  -- A piece behind the written one is as it was.
  pub segment-overwrite_after :
      (xs : List A) (i : ℕ) (ys : List A) (j n : ℕ)
      → i ≤ length xs
      → i + length ys ≤ j
      → segment j n (overwrite xs i ys) ≡ segment j n xs
  unfolding segment overwrite
  segment-overwrite_after xs i ys j n fits h = ap (take n) (
      ap (λ k. drop k (overwrite xs i ys)) {y = i + length ys + (j - (i + length ys))} (omega arith)
      ∙ drop-add (i + length ys) (j - (i + length ys)) (overwrite xs i ys)
      ∙ ap (drop (j - (i + length ys))) (
          drop-add i (length ys) (overwrite xs i ys)
          ∙ ap (drop (length ys))
              (drop-append_of_eq i (take i xs) _ (omega (arith, length-take i xs)))
          ∙ drop-append_of_eq (length ys) ys (drop (i + length ys) xs) refl)
      ∙ sym (drop-add (i + length ys) (j - (i + length ys)) xs)
      ∙ ap (λ k. drop k xs) {y = j} (omega arith))
