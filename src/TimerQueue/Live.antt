-- ===== src/TimerQueue/Live.antt =====
-- The timers that the queue points to are allocated.
use websocket_cpp.Base.{
  ℕ, ◌≡◌, ◌≢◌, refl, sym, ◌∙◌, List, [], ◌∷◌, false, Bool, ◌==◌, if◌then◌else◌, Bool-cases, inl,
  inr, ==_iff, Option, none, some, ok,
}
use websocket_cpp.TimerQueue.{
  TimerQueue, Timer, TimerEntity, before, insert_entity, insert, update, deref, valid, is_earliest,
}
use websocket_cpp.TimerQueue.Order.{All, All-insert_entity, IsSorted, insert_entity-IsSorted}

-- No entity is of that timer.
abbrev pub Apart : ℕ → List TimerEntity → Type 0
Apart ptr xs = All (λ y. y.ptr ≢ ptr) xs

abbrev pub IsDistinct : List TimerEntity → Type 0
IsDistinct [] = Unit
IsDistinct (x ∷ xs) = Apart x.ptr xs × IsDistinct xs

-- The timer is allocated, and expires at the entity's time.
abbrev pub IsLive : (ℕ → Option Timer) → TimerEntity → Type 0
IsLive heap e = (t : Timer) × (heap e.ptr ≡ some t) × (t.expiration ≡ e.time)

-- The timer is allocated.
abbrev pub IsAllocated : (ℕ → Option Timer) → TimerEntity → Type 0
IsAllocated heap e = (t : Timer) × (heap e.ptr ≡ some t)

pub record IsValid (q : TimerQueue) : Type 0 where
  pub sorted : IsSorted q.timer_lists
  pub distinct : IsDistinct q.timer_lists
  pub live : All (IsLive q.heap) q.timer_lists

pub update_same : (heap : ℕ → Option Timer) (ptr : ℕ) (o : Option Timer) → update heap ptr o ptr ≡ o
unfolding update
update_same heap ptr o = rw ((==_iff ptr ptr).1 refl)

pub update_other :
    (heap : ℕ → Option Timer) (ptr p : ℕ) (o : Option Timer)
    → p ≢ ptr
    → update heap ptr o p ≡ heap p
unfolding update
update_other heap ptr p o n = elim (Bool-cases (p == ptr)) [
  | inl y ↦ absurd (n ((==_iff p ptr).0 y))
  | inr y ↦ rw y
]

pub IsDistinct-insert_entity :
    (e : TimerEntity) (xs : List TimerEntity)
    → Apart e.ptr xs
    → IsDistinct xs
    → IsDistinct (insert_entity e xs)
unfolding insert_entity
IsDistinct-insert_entity e [] a d = (tt, tt)
IsDistinct-insert_entity e (x ∷ xs) a d = elim (Bool-cases (before e x)) [
  | inl y ↦ rw y (a, d)
  | inr n ↦ elim (Bool-cases (before x e)) [
    | inl z ↦
        rw (n, z)
          (
            All-insert_entity (λ w. w.ptr ≢ x.ptr) e xs (λ h. a.0 (sym h)) d.0,
            IsDistinct-insert_entity e xs a.1 d.1,
          )
    | inr z ↦ rw (n, z) d
  ]
]

-- Changing the heap at one timer leaves the entities of the others live.
pub IsLive-update :
    (heap : ℕ → Option Timer) (ptr : ℕ) (o : Option Timer) (xs : List TimerEntity)
    → Apart ptr xs
    → All (IsLive heap) xs
    → All (IsLive (update heap ptr o)) xs
IsLive-update heap ptr o [] a l = tt
IsLive-update heap ptr o (x ∷ xs) a l =
    let (t, held, at) = l.0 in
    ((t, update_other heap ptr x.ptr o a.0 ∙ held, at), IsLive-update heap ptr o xs a.1 l.1)

-- What `insert` leaves: other timers stay as they are, and apart from the queue if they were.
pub record Inserted (q : TimerQueue) (ptr : ℕ) (r : TimerQueue) : Type 0 where
  pub keeps : IsValid r
  pub others : (p : ℕ) → p ≢ ptr → r.heap p ≡ q.heap p
  pub apart : (p : ℕ) → p ≢ ptr → Apart p q.timer_lists → Apart p r.timer_lists

-- The queue with the timer in it, and the queue with the timer deleted.
abbrev queued : TimerQueue → ℕ → ℕ → TimerQueue
queued q ptr at = record q {
  timer_lists = insert_entity (record { time = at; ptr = ptr }) q.timer_lists;
}

abbrev freed : TimerQueue → ℕ → TimerQueue
freed q ptr = record q { heap = update q.heap ptr none }

queued-Inserted :
    (q : TimerQueue) (ptr : ℕ) (t : Timer)
    → IsValid q
    → q.heap ptr ≡ some t
    → Apart ptr q.timer_lists
    → Inserted q ptr (queued q ptr t.expiration)
queued-Inserted q ptr t v held a =
    let e : TimerEntity = record { time = t.expiration; ptr = ptr } in
    record {
      keeps = record {
        sorted = insert_entity-IsSorted e q.timer_lists v.sorted;
        distinct = IsDistinct-insert_entity e q.timer_lists a v.distinct;
        live = All-insert_entity (IsLive q.heap) e q.timer_lists (t, held, refl) v.live;
      };
      others = λ p n. refl;
      apart = λ p n b. All-insert_entity (λ w. w.ptr ≢ p) e q.timer_lists (λ h. n (sym h)) b;
    }

freed-Inserted :
    (q : TimerQueue) (ptr : ℕ) → IsValid q → Apart ptr q.timer_lists → Inserted q ptr (freed q ptr)
freed-Inserted q ptr v a = record {
  keeps = record {
    sorted = v.sorted;
    distinct = v.distinct;
    live = IsLive-update q.heap ptr none q.timer_lists a v.live;
  };
  others = λ p m. update_other q.heap ptr p none m;
  apart = λ p m b. b;
}

pub insert_lem :
    (q : TimerQueue) (ptr : ℕ) (t : Timer)
    → IsValid q
    → q.heap ptr ≡ some t
    → Apart ptr q.timer_lists
    → (changed : Bool) × (r : TimerQueue) × (insert q ptr ≡ ok (changed, r))
      × Inserted q ptr r
      × (r.heap ptr ≡ (if valid t.expiration then some t else none))
unfolding insert deref
insert_lem q ptr t v held a = elim (Bool-cases (valid t.expiration)) [
  | inl y ↦ (
    is_earliest t.expiration q.timer_lists,
    queued q ptr t.expiration,
    rw (insert, deref, held, y) refl,
    queued-Inserted q ptr t v held a,
    rw (held, y) refl,
  )
  | inr n ↦ (
    false,
    freed q ptr,
    rw (insert, deref, held, n) refl,
    freed-Inserted q ptr v a,
    rw n (update_same q.heap ptr none),
  )
]
