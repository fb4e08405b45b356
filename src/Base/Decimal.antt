-- ===== src/Base/Decimal.antt =====
-- Decimal numbers as the C library writes and reads them: `%d` of `snprintf`, and `atoi`.
use Prim.Native.Nat.{ℕ, zero, suc, ◌+◌, ◌-◌, ◌*◌, ◌/◌, ◌%◌, ◌<◌}
use mathlib.Core.Path.{◌≡◌, refl, ap, sym, ◌∙◌}
use mathlib.Core.Logic.{inl, inr}
use mathlib.Core.Bool.{Bool, true, ◌&&◌}
use mathlib.Core.List.{List, [], ◌∷◌, ◌++◌}
use native.Mathlib.Omega.{arith}
use websocket_cpp.Base.Lists.{length, length-append}
use websocket_cpp.Base.Tests.{ltb, leb, if◌then◌else◌, ltb→lt, Bool-cases}

-- The digits of `n`, with fuel; one more than `n` is enough.
pub digits_of : ℕ → ℕ → List ℕ
digits_of zero n = []
digits_of (suc fuel) n =
    let rest = digits_of fuel (n / 10) in
    if ltb n 10 then (n + 48) ∷ [] else rest ++ ((n % 10 + 48) ∷ [])

unfoldable pub decimal : ℕ → List ℕ
unfolding digits_of
decimal n = digits_of (suc n) n

abbrev pub is_digit : ℕ → Bool
is_digit c = leb 48 c && ltb c 58

-- The number that the digits at the front make, after `acc`
unfoldable pub read_digits : ℕ → List ℕ → ℕ
read_digits acc [] = acc
read_digits acc (c ∷ s) = if is_digit c then read_digits (acc * 10 + (c - 48)) s else acc

abbrev pub AllDigits : List ℕ → Type 0
AllDigits [] = Unit
AllDigits (c ∷ s) = (is_digit c ≡ true) × AllDigits s

AllDigits-append : (xs ys : List ℕ) → AllDigits xs → AllDigits ys → AllDigits (xs ++ ys)
AllDigits-append [] ys a b = b
AllDigits-append (x ∷ xs) ys a b = (a.0, AllDigits-append xs ys a.1 b)

read_digits-append :
    (acc : ℕ) (xs ys : List ℕ)
    → AllDigits xs
    → read_digits acc (xs ++ ys) ≡ read_digits (read_digits acc xs) ys
unfolding read_digits
read_digits-append acc [] ys a = refl
read_digits-append acc (x ∷ xs) ys a = rw (a.0) (read_digits-append (acc * 10 + (x - 48)) xs ys a.1)

digit : (n : ℕ) → n < 10 → is_digit (n + 48) ≡ true
digit n h = ground arith

read_digits-digit : (acc n : ℕ) → n < 10 → read_digits acc ((n + 48) ∷ []) ≡ acc * 10 + n
unfolding read_digits
read_digits-digit acc n h = rw (digit n h) (omega arith)

digits_of_lem :
    (fuel n : ℕ) → n < fuel → AllDigits (digits_of fuel n) × (read_digits 0 (digits_of fuel n) ≡ n)
unfolding digits_of
digits_of_lem zero n h = absurd (omega arith)
digits_of_lem (suc fuel) n h = elim (Bool-cases (ltb n 10)) [
  | inl y ↦
      rw y ((digit n (ltb→lt n 10 y), tt), read_digits-digit 0 n (ltb→lt n 10 y) ∙ omega arith)
  | inr m ↦
      let (all, value) = digits_of_lem fuel (n / 10) (ground arith) in
      rw m (
        AllDigits-append (digits_of fuel (n / 10)) _ all (digit (n % 10) (omega arith), tt),
        read_digits-append 0 (digits_of fuel (n / 10)) _ all
            ∙ read_digits-digit _ (n % 10) (omega arith)
            ∙ omega (arith, value),
      )
]

pub AllDigits-decimal : (n : ℕ) → AllDigits (decimal n)
unfolding decimal
AllDigits-decimal n = (digits_of_lem (suc n) n (omega arith)).0

-- What is written is read.
pub read_digits-decimal : (n : ℕ) → read_digits 0 (decimal n) ≡ n
unfolding decimal
read_digits-decimal n = (digits_of_lem (suc n) n (omega arith)).1

-- Different numbers are written differently.
pub decimal_injective : (m n : ℕ) → decimal m ≡ decimal n → m ≡ n
decimal_injective m n e = sym (read_digits-decimal m) ∙ ap (read_digits 0) e ∙ read_digits-decimal n

pub decimal_pos : (n : ℕ) → 0 < length (decimal n)
unfolding decimal digits_of
decimal_pos n = elim (Bool-cases (ltb n 10)) [
  | inl y ↦ rw y (omega arith)
  | inr m ↦ rw m (omega (arith, length-append (digits_of n (n / 10)) ((n % 10 + 48) ∷ [])))
]
