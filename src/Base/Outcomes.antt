-- ===== src/Base/Outcomes.antt =====
-- How a run of C++ code can end other than by returning: a failed `assert` aborts the process (the
-- build defines no NDEBUG), and an access outside an array is undefined behaviour.
use mathlib.Core.Path.{◌≡◌, refl}
use mathlib.Core.Logic.{◌⊎◌, inl, inr}
use mathlib.Core.Bool.{Bool, true, false}

pub data Failure : Type 0 where
  faulted aborted : Failure

pub data Result {ℓ} (A : Type ℓ) : Type ℓ where
  err : (how : Failure) → Result A
  ok : (value : A) → Result A

-- `assert(b)`
abbrev pub assert : Bool → Result (Unit {0})
assert false = err aborted
assert true = ok tt

-- An access that is defined only if `b`.
abbrev pub in_range : Bool → Result (Unit {0})
in_range false = err faulted
in_range true = ok tt

-- What comes after a failure is not run.
infixl 5 ◌>>=◌ ◌>>◌
abbrev pub ◌>>=◌ {ℓ1 ℓ2} :
    {X : Type ℓ1} {Y : Type ℓ2} (m : Result X) (next : X → Result Y) → Result Y
err how >>= next = err how
ok value >>= next = next value

abbrev pub ◌>>◌ {ℓ1} : {Y : Type ℓ1} (first : Result (Unit {0})) (second : Result Y) → Result Y
first >> second = first >>= λ done. second

-- To split on how a run ended, and keep the equation.
pub Result-cases {ℓ} :
    {A : Type ℓ} (r : Result A) → ((e : Failure) × (r ≡ err e)) ⊎ ((a : A) × (r ≡ ok a))
Result-cases (ok a) = inr (a, refl)
Result-cases (err e) = inl (e, refl)

-- The parts of a chain that succeeded.
pub >>=-eq-ok {ℓ1 ℓ2} :
    {X : Type ℓ1} {Y : Type ℓ2} (m : Result X) (next : X → Result Y) {y : Y}
    → (m >>= next) ≡ ok y
    → (x : X) × (m ≡ ok x) × (next x ≡ ok y)
>>=-eq-ok (err how) next h = cc
>>=-eq-ok (ok value) next h = (value, refl, h)
