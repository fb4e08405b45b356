-- ===== src/Heartbeat/Receiver.antt =====
-- The receiver of heartbeats: which connections it closes, and what it answers.
use websocket_cpp.Base.{
  ℕ, ◌+◌, ◌-◌, ◌/◌, ◌<◌, ◌≤◌, ◌≡◌, ◌≢◌, ◌^◌, inl, inr, refl, sym, List, [], ◌∷◌, ok, err, faulted,
  arith, false, if◌then◌else◌, Bool-cases, ◌==◌, ==_iff, le→ltb,
}
use websocket_cpp.Heartbeat.{
  ConnHeart, touch, timer_callback, expire_conns, is_stale, now_seconds, timeout,
}
use websocket_cpp.TimerQueue.{microseconds_per_second}

-- The connections that have timed out, and the others.
abbrev pub stale : ℕ → List ConnHeart → List ℕ
stale now [] = []
stale now (x ∷ xs) = let rest = stale now xs in if is_stale now x then x.conn ∷ rest else rest

abbrev pub fresh : ℕ → List ConnHeart → List ConnHeart
fresh now [] = []
fresh now (x ∷ xs) = let rest = fresh now xs in if is_stale now x then rest else x ∷ rest

expire_conns_lem :
    (now : ℕ) (xs : List ConnHeart) → expire_conns now false xs ≡ ok (stale now xs, fresh now xs)
unfolding expire_conns
expire_conns_lem now [] = refl
expire_conns_lem now (x ∷ xs) = elim (Bool-cases (is_stale now x)) [
  | inl y ↦ rw (y, expire_conns_lem now xs) refl
  | inr n ↦ rw (n, expire_conns_lem now xs) refl
]

-- `timerCallback` closes exactly the connections that were not heard of for more than 15 seconds and
-- keeps the others in order, unless the first of the list has timed out: then it steps back from
-- `begin()`.
pub timer_callback_lem :
    (now : ℕ) (x : ConnHeart) (xs : List ConnHeart)
    → timer_callback now (x ∷ xs)
      ≡ (if is_stale now x then err faulted else ok (stale now (x ∷ xs), fresh now (x ∷ xs)))
unfolding timer_callback expire_conns
timer_callback_lem now x xs = elim (Bool-cases (is_stale now x)) [
  | inl y ↦ rw y refl
  | inr n ↦ rw (n, expire_conns_lem now xs) refl
]

-- The connection is not in the list, and no connection is in it twice.
abbrev pub Absent : ℕ → List ConnHeart → Type 0
Absent conn [] = Unit
Absent conn (x ∷ xs) = (x.conn ≢ conn) × Absent conn xs

abbrev pub IsDistinct : List ConnHeart → Type 0
IsDistinct [] = Unit
IsDistinct (x ∷ xs) = Absent x.conn xs × IsDistinct xs

-- The connection is not among those.
abbrev pub Spared : ℕ → List ℕ → Type 0
Spared conn [] = Unit
Spared conn (c ∷ cs) = (c ≢ conn) × Spared conn cs

touch-Absent :
    (now conn other : ℕ) (xs : List ConnHeart)
    → conn ≢ other
    → Absent other xs
    → Absent other (touch now conn xs)
unfolding touch
touch-Absent now conn other [] n a = (n, tt)
touch-Absent now conn other (x ∷ xs) n a = elim (Bool-cases (x.conn == conn)) [
  | inl y ↦ rw y a
  | inr z ↦ rw z (a.0, touch-Absent now conn other xs n a.1)
]

differs : (a b : ℕ) → (a == b) ≡ false → a ≢ b
differs a b h = ground arith

pub touch-IsDistinct :
    (now conn : ℕ) (xs : List ConnHeart) → IsDistinct xs → IsDistinct (touch now conn xs)
unfolding touch
touch-IsDistinct now conn [] d = (tt, tt)
touch-IsDistinct now conn (x ∷ xs) d = elim (Bool-cases (x.conn == conn)) [
  | inl y ↦ rw y d
  | inr z ↦ rw z (
    touch-Absent now conn x.conn xs (λ e. differs x.conn conn z (sym e)) d.0,
    touch-IsDistinct now conn xs d.1,
  )
]

Absent-Spared :
    (later conn : ℕ) (xs : List ConnHeart) → Absent conn xs → Spared conn (stale later xs)
Absent-Spared later conn [] a = tt
Absent-Spared later conn (x ∷ xs) a = elim (Bool-cases (is_stale later x)) [
  | inl y ↦ rw y (a.0, Absent-Spared later conn xs a.1)
  | inr n ↦ rw n (Absent-Spared later conn xs a.1)
]

pub touch-Spared :
    (now later conn : ℕ) (xs : List ConnHeart)
    → IsDistinct xs
    → now / microseconds_per_second < 2 ^ 32
    → later / microseconds_per_second ≤ now / microseconds_per_second + timeout
    → Spared conn (stale later (touch now conn xs))
unfolding touch
touch-Spared now later conn [] d fits soon =
    rw (le→ltb timeout (later / microseconds_per_second - now_seconds now) (omega arith)) tt
touch-Spared now later conn (x ∷ xs) d fits soon = elim (Bool-cases (x.conn == conn)) [
  | inl y ↦
      rw (y, le→ltb timeout (later / microseconds_per_second - now_seconds now) (omega arith))
        (Absent-Spared later conn xs (rw (← (==_iff x.conn conn).0 y) d.0))
  | inr z ↦ elim (Bool-cases (is_stale later x)) [
    | inl y ↦ rw (z, y) (differs x.conn conn z, touch-Spared now later conn xs d.1 fits soon)
    | inr n ↦ rw (z, n) (touch-Spared now later conn xs d.1 fits soon)
  ]
]
