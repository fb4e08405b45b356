-- ===== src/TimerQueue/Order.antt =====
-- The order of the timers in the queue.
use websocket_cpp.Base.{ℕ, ◌≡◌, refl, List, [], ◌∷◌, ◌++◌, true, false, arith, Bool-cases, inl, inr}
use websocket_cpp.TimerQueue.{TimerEntity, before, insert_entity, below, from_bound, bound_at}

abbrev pub All : (TimerEntity → Type 0) → List TimerEntity → Type 0
All P [] = Unit
All P (x ∷ xs) = P x × All P xs

-- The order of the set, without equal entities.
abbrev pub IsSorted : List TimerEntity → Type 0
IsSorted [] = Unit
IsSorted (x ∷ xs) = All (λ y. before x y ≡ true) xs × IsSorted xs

before_trans : (a b c : TimerEntity) → before a b ≡ true → before b c ≡ true → before a c ≡ true
unfolding before
before_trans a b c h k = ground arith

before-bound :
    (x y : TimerEntity) (tm : ℕ)
    → before x y ≡ true
    → before x (bound_at tm) ≡ false
    → before y (bound_at tm) ≡ false
unfolding before
before-bound x y tm h k = ground arith

pub All-map :
    (P Q : TimerEntity → Type 0) (xs : List TimerEntity)
    → ((x : TimerEntity) → P x → Q x)
    → All P xs
    → All Q xs
All-map P Q [] f h = tt
All-map P Q (x ∷ xs) f h = (f x h.0, All-map P Q xs f h.1)

pub All-insert_entity :
    (P : TimerEntity → Type 0) (e : TimerEntity) (xs : List TimerEntity)
    → P e
    → All P xs
    → All P (insert_entity e xs)
unfolding insert_entity
All-insert_entity P e [] pe h = (pe, tt)
All-insert_entity P e (x ∷ xs) pe h = elim (Bool-cases (before e x)) [
  | inl y ↦ rw y (pe, h)
  | inr n ↦ elim (Bool-cases (before x e)) [
    | inl z ↦ rw (n, z) (h.0, All-insert_entity P e xs pe h.1)
    | inr z ↦ rw (n, z) h
  ]
]

pub insert_entity-IsSorted :
    (e : TimerEntity) (xs : List TimerEntity) → IsSorted xs → IsSorted (insert_entity e xs)
unfolding insert_entity
insert_entity-IsSorted e [] h = (tt, tt)
insert_entity-IsSorted e (x ∷ xs) h = elim (Bool-cases (before e x)) [
  | inl y ↦ rw y (
    (
      y,
      All-map (λ z. before x z ≡ true) (λ z. before e z ≡ true) xs (λ z k. before_trans e x z y k)
          h.0,
    ),
    h,
  )
  | inr n ↦ elim (Bool-cases (before x e)) [
    | inl z ↦
        rw (n, z)
          (All-insert_entity (λ w. before x w ≡ true) e xs z h.0, insert_entity-IsSorted e xs h.1)
    | inr z ↦ rw (n, z) h
  ]
]

pub below-from_bound :
    (e : TimerEntity) (xs : List TimerEntity) → below e xs ++ from_bound e xs ≡ xs
unfolding below from_bound
below-from_bound e [] = refl
below-from_bound e (x ∷ xs) = elim (Bool-cases (before x e)) [
  | inl y ↦ rw (y, below-from_bound e xs)
  | inr n ↦ rw n
]

pub All-below :
    (e : TimerEntity) (xs : List TimerEntity) → All (λ x. before x e ≡ true) (below e xs)
unfolding below
All-below e [] = tt
All-below e (x ∷ xs) = elim (Bool-cases (before x e)) [
  | inl y ↦ rw y (y, All-below e xs)
  | inr n ↦ rw n tt
]

pub All-from_bound :
    (tm : ℕ) (xs : List TimerEntity)
    → IsSorted xs
    → All (λ x. before x (bound_at tm) ≡ false) (from_bound (bound_at tm) xs)
unfolding from_bound
All-from_bound tm [] h = tt
All-from_bound tm (x ∷ xs) h = elim (Bool-cases (before x (bound_at tm))) [
  | inl y ↦ rw y (All-from_bound tm xs h.1)
  | inr n ↦ rw n (
    n,
    All-map (λ z. before x z ≡ true) (λ z. before z (bound_at tm) ≡ false) xs
        (λ z k. before-bound x z tm k n) h.0,
  )
]
