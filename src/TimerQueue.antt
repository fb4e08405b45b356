-- ===== src/TimerQueue.antt =====
-- `TimerQueue` of base/TimerQueue.cpp with `Timer` of base/Timer.h and `Timestamp` of
-- base/Timestamp.h. A time is its number of microseconds; a negative one behaves as 0 here, which is
-- not valid either. A `Timer*` is a number, and the heap says which timers are allocated.
pub mod Order
pub mod Live
pub mod Expire
pub mod Changes
pub mod Events
pub mod Arming
pub mod Removal
pub mod Histories
mod Tests
use websocket_cpp.Base.{
  ℕ, ◌+◌, ◌-◌, ◌*◌, ◌/◌, ◌%◌, ◌^◌, List, [], ◌∷◌, ◌++◌, map, Bool, true, false, ◌&&◌, ◌||◌, not,
  ltb, ◌==◌, if◌then◌else◌, Option, none, some, Result, ok, err, faulted, ◌>>=◌, ◌>>◌,
}

abbrev pub microseconds_per_second : ℕ
microseconds_per_second = 1000 * 1000

-- `Timestamp::valid`
abbrev pub valid : ℕ → Bool
valid t = ltb 0 t

-- The duration is given in microseconds: the product that `addSeconds` forms and cuts to an integer.
abbrev pub add_seconds : ℕ → ℕ → ℕ
add_seconds t microsec = t + microsec

-- `compute_` is the timer's algorithm: what `nextTimestamp` returns at the current time. `interval` is
-- in microseconds.
pub record Timer : Type 0 where
  pub expiration : ℕ
  pub repeat : Bool
  pub compute : Option (ℕ → ℕ)
  pub interval : ℕ

-- `Timer::restartTimer` at the time `now`
pub restart_timer : ℕ → Timer → Timer
restart_timer now t = elim t.compute [
  | some next ↦ record t { expiration = next now }
  | none ↦ if ltb 0 t.interval then record t { expiration = add_seconds now t.interval } else t
]

-- `std::pair<Timestamp, Timer*>`
pub record TimerEntity : Type 0 where
  pub time : ℕ
  pub ptr : ℕ

-- `operator<` of the pairs
pub before : TimerEntity → TimerEntity → Bool
before a b = ltb a.time b.time || (not (ltb b.time a.time) && ltb a.ptr b.ptr)

-- What was last given to `timerfd_settime`: a time of day in seconds, or seconds and nanoseconds from
-- now.
pub data Armed : Type 0 where
  never : Armed
  absolute : ℕ → Armed
  relative : ℕ → ℕ → Armed

-- `armed_at` is the time of the last call of `timerfd_settime`; `bsetup` is the static flag of
-- `resetTimerFd`.
pub record TimerQueue : Type 0 where
  pub timer_lists : List TimerEntity
  pub heap : ℕ → Option Timer
  pub armed : Armed
  pub armed_at : ℕ
  pub bsetup : Bool

-- `howMuchTimeFromNow`, at the time `now`: at least 100 microseconds.
pub how_much_time_from_now : ℕ → ℕ → Armed
how_much_time_from_now now when =
    let microseconds = if ltb (when - now) 100 then 100 else when - now in
    relative (microseconds / microseconds_per_second)
      (microseconds % microseconds_per_second * 1000)

pub reset_timer_fd : ℕ → TimerQueue → ℕ → TimerQueue
reset_timer_fd now q tm =
    if q.bsetup
    then record q { armed = how_much_time_from_now now tm; armed_at = now }
    else record q { armed = absolute (tm / microseconds_per_second); armed_at = now; bsetup = true }

-- `*tmer`
pub deref : TimerQueue → ℕ → Result Timer
deref q ptr = elim (q.heap ptr) [ none ↦ err faulted | some t ↦ ok t ]

pub update : (ℕ → Option Timer) → ℕ → Option Timer → ℕ → Option Timer
update heap ptr o p = if p == ptr then o else heap p

-- `std::set::insert`
pub insert_entity : TimerEntity → List TimerEntity → List TimerEntity
insert_entity e [] = e ∷ []
insert_entity e (x ∷ xs) =
    let rest = insert_entity e xs in
    if before e x then e ∷ x ∷ xs else if before x e then x ∷ rest else x ∷ xs

-- `it == timerLists_.end() || newtm < it->first`
pub is_earliest : ℕ → List TimerEntity → Bool
is_earliest t [] = true
is_earliest t (x ∷ xs) = ltb t x.time

-- `TimerQueue::insert`. A timer with an invalid time is deleted.
pub insert : TimerQueue → ℕ → Result (Bool × TimerQueue)
insert q ptr = do
  t ← deref q ptr
  ok (
      if valid t.expiration
      then (
        is_earliest t.expiration q.timer_lists,
        record q {
          timer_lists = insert_entity (record { time = t.expiration; ptr = ptr }) q.timer_lists;
        },
      )
      else (false, record q { heap = update q.heap ptr none }))

-- `addTimer(Timer*)`, and `addTimer(Timestamp&, …)` after its `new Timer`. Both read `tmer->index()`
-- at the end.
pub add_timer : ℕ → TimerQueue → ℕ → Result TimerQueue
add_timer now q ptr = do
  t ← deref q ptr
  (changed, r) ← insert q ptr
  u ← deref r ptr
  ok (if changed then reset_timer_fd now r t.expiration else r)

-- The timer that the constructor adds, in one year.
abbrev pub sentinel : ℕ → Timer
sentinel now = record {
  expiration = add_seconds now (24 * 3600 * 365 * microseconds_per_second);
  repeat = false;
  compute = none;
  interval = 0;
}

-- The members before that; `ptr` is what `new` returns for the sentinel.
abbrev pub empty_queue : ℕ → Bool → ℕ → TimerQueue
empty_queue now bsetup ptr = record {
  timer_lists = [];
  heap = λ p. if p == ptr then some (sentinel now) else none;
  armed = never;
  armed_at = 0;
  bsetup = bsetup;
}

-- `TimerQueue::TimerQueue`
pub new_timer_queue : ℕ → Bool → ℕ → Result TimerQueue
new_timer_queue now bsetup ptr = add_timer now (empty_queue now bsetup ptr) ptr

-- The entities before `lower_bound(e)`, and those from there on.
pub below : TimerEntity → List TimerEntity → List TimerEntity
below e [] = []
below e (x ∷ xs) = let rest = below e xs in if before x e then x ∷ rest else []

pub from_bound : TimerEntity → List TimerEntity → List TimerEntity
from_bound e [] = []
from_bound e (x ∷ xs) = let rest = from_bound e xs in if before x e then rest else x ∷ xs

-- `UINTPTR_MAX`
abbrev pub uintptr_max : ℕ
uintptr_max = 2 ^ 64 - 1

abbrev pub bound_at : ℕ → TimerEntity
bound_at tm = record { time = tm; ptr = uintptr_max }

-- `getExpireTimer`: the expired entities and the queue without them. If all have expired, none is.
pub get_expire_timer : TimerQueue → ℕ → List TimerEntity × TimerQueue
get_expire_timer q tm = elim (from_bound (bound_at tm) q.timer_lists) [
  | [] ↦ ([], q)
  | x ∷ xs ↦ (below (bound_at tm) q.timer_lists, record q { timer_lists = x ∷ xs })
]

-- The loop of `resetExpired`. A timer that does not repeat is left allocated.
pub restart_all : ℕ → TimerQueue → List TimerEntity → Result TimerQueue
restart_all now q [] = ok q
restart_all now q (e ∷ es) = do
  t ← deref q e.ptr
  r ←
      (if t.repeat
        then (do
          (changed, s) ←
              insert (record q { heap = update q.heap e.ptr (some (restart_timer now t)) }) e.ptr
          ok s)
        else ok q)
  restart_all now r es

-- The end of `resetExpired`
pub rearm : ℕ → TimerQueue → List TimerEntity → Result TimerQueue
rearm now q [] = ok q
rearm now q (x ∷ xs) = do
  t ← deref q x.ptr
  ok (if valid t.expiration then reset_timer_fd now q t.expiration else q)

pub reset_expired : ℕ → TimerQueue → List TimerEntity → Result TimerQueue
reset_expired now q expire = do r ← restart_all now q expire; rearm now r r.timer_lists

-- `eventRead` at `evtime`; `now` is the time at which the timers are restarted. The timers that run
-- are the first part of the result.
pub event_read : ℕ → ℕ → TimerQueue → Result (List ℕ × TimerQueue)
event_read evtime now q =
    let (expire, r) = get_expire_timer q evtime in
    elim expire [
      | [] ↦ ok ([], r)
      | e ∷ es ↦ do
        s ← reset_expired now r (e ∷ es)
        ok (map (λ (x : TimerEntity). x.ptr) (e ∷ es), s)
    ]

pub remove_ptr : ℕ → List TimerEntity → List TimerEntity
remove_ptr ptr [] = []
remove_ptr ptr (x ∷ xs) = if x.ptr == ptr then xs else x ∷ remove_ptr ptr xs

pub has_ptr : ℕ → List TimerEntity → Bool
has_ptr ptr [] = false
has_ptr ptr (x ∷ xs) = x.ptr == ptr || has_ptr ptr xs

-- `resetTimerFd` with the time of the first entity, if there is one
pub rearm_first : ℕ → TimerQueue → List TimerEntity → TimerQueue
rearm_first now q [] = q
rearm_first now q (x ∷ xs) = reset_timer_fd now q x.time

-- `delTimerInLoop`: the first entity of that timer goes, and the timer is deleted.
pub del_timer_in_loop : ℕ → TimerQueue → ℕ → TimerQueue
del_timer_in_loop now q ptr =
    if has_ptr ptr q.timer_lists
    then (let r = record q {
      timer_lists = remove_ptr ptr q.timer_lists;
      heap = update q.heap ptr none;
    } in
        rearm_first now r r.timer_lists)
    else q
