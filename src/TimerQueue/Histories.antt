-- ===== src/TimerQueue/Histories.antt =====
-- A timer queue over its whole life.
use websocket_cpp.Base.{
  ◌+◌, ◌-◌, ◌*◌, ◌%◌, max, ltb, if◌then◌else◌, ℕ, ◌/◌, ◌<◌, ◌≡◌, refl, ap, sym, subst, ◌∙◌, List,
  [], ◌∷◌, Bool, true, false, none, some, Result, ok, ◌>>=◌, arith, inl, inr, ==_iff,
}
use websocket_cpp.TimerQueue.{
  TimerQueue, Timer, TimerEntity, absolute, relative, how_much_time_from_now,
  microseconds_per_second, reset_timer_fd, update, is_earliest, insert_entity, add_timer,
  get_expire_timer, event_read, del_timer_in_loop, new_timer_queue, empty_queue, sentinel,
}
use websocket_cpp.TimerQueue.Live.{Apart, IsValid, IsLive-update, update_same}
use websocket_cpp.TimerQueue.Changes.{deref_eq}
use websocket_cpp.TimerQueue.Events.{event_read_lem, add_timer_lem, new_timer_queue_lem}
use websocket_cpp.TimerQueue.Removal.{del_timer_in_loop_lem}
use websocket_cpp.TimerQueue.Arming.{
  insert_eq, Follows, set_for, kept, nothing, IsUsable, first_time, value_of, add_timer-Follows,
  del_timer_in_loop-Follows, event_read-Follows,
}

-- A new timer is added, a timer is deleted, or the descriptor is readable.
pub data Op : Type 0 where
  added : (ptr : ℕ) (t : Timer) → Op
  deleted : (ptr : ℕ) → Op
  fired : (evtime : ℕ) → Op

unfoldable pub apply : ℕ → Op → TimerQueue → Result TimerQueue
apply now (added ptr t) q = add_timer now (record q { heap = update q.heap ptr (some t) }) ptr
apply now (deleted ptr) q = ok (del_timer_in_loop now q ptr)
apply now (fired evtime) q = event_read evtime now q >>= λ p. ok p.1

-- What is added is a new timer with a valid time, and the descriptor is readable when some timer has
-- expired and not all have.
abbrev pub Allowed : Op → TimerQueue → Type 0
Allowed (added ptr t) q = (0 < t.expiration) × Apart ptr q.timer_lists
Allowed (deleted ptr) q = Unit
Allowed (fired evtime) q =
    (x : TimerEntity) × (xs : List TimerEntity) × ((get_expire_timer q evtime).0 ≡ x ∷ xs)

pub data Reach : TimerQueue → Type 0 where
  made :
      {q : TimerQueue} (now : ℕ) (bsetup : Bool) (ptr : ℕ)
      → new_timer_queue now bsetup ptr ≡ ok q
      → Reach q
  next :
      {q r : TimerQueue} (now : ℕ) (op : Op)
      → Reach q
      → Allowed op q
      → apply now op q ≡ ok r
      → Reach r

-- The descriptor becomes readable at the time `t`: a duration of seconds and nanoseconds was set.
abbrev pub Expires : TimerQueue → ℕ → Type 0
Expires q t =
    (s : ℕ) × (ns : ℕ) × (q.armed ≡ relative s ns)
    × (q.armed_at * 1000 + (s * 1000000000 + ns) ≡ t * 1000)

-- The descriptor is set for the first timer. It becomes readable at the time of this timer, or 100
-- microseconds after it was set if that is later; or it was set by the constructor of the first queue, for
-- the second of the time of the timer that the constructor adds, and this is still the first; or there is
-- no timer.
pub data SetFor (q : TimerQueue) : Type 0 where
  left :
      (tm : ℕ)
      → first_time q.timer_lists ≡ some tm
      → Expires q (max (q.armed_at + 100) tm)
      → SetFor q
  second :
      (tm : ℕ)
      → first_time q.timer_lists ≡ some tm
      → tm ≡ (sentinel q.armed_at).expiration
      → q.armed ≡ absolute (tm / microseconds_per_second)
      → SetFor q
  empty : q.timer_lists ≡ [] → SetFor q

pub record IsArmed (q : TimerQueue) : Type 0 where
  pub valid_queue : IsValid q
  pub usable : IsUsable q
  pub armed_for : SetFor q

Expires-set :
    (now tm : ℕ) (q : TimerQueue)
    → q.armed ≡ how_much_time_from_now now tm
    → q.armed_at ≡ now
    → Expires q (max (q.armed_at + 100) tm)
unfolding how_much_time_from_now
Expires-set now tm q h at =
    let us = if ltb (tm - now) 100 then 100 else tm - now in
    let due : now + us ≡ max (now + 100) tm = ground arith in
    (us / 1000000, us % 1000000 * 1000, h, omega arith)

Expires-kept :
    (q r : TimerQueue) (tm : ℕ)
    → r.armed ≡ q.armed
    → r.armed_at ≡ q.armed_at
    → Expires q (max (q.armed_at + 100) tm)
    → Expires r (max (r.armed_at + 100) tm)
Expires-kept q r tm a at (s, ns, e, t) = (s, ns, a ∙ e, omega arith)

SetFor-Follows : {now : ℕ} {q r : TimerQueue} → Follows now q r → SetFor q → SetFor r
SetFor-Follows {now} {q} {r} (set_for tm a b at) s = left tm a (Expires-set now tm r b at)
SetFor-Follows (nothing e) s = empty e
SetFor-Follows {now} {q} {r} (kept a b at) (left tm f g) =
    left tm (a ∙ f) (Expires-kept q r tm b at g)
SetFor-Follows (kept a b at) (second tm f first g) =
    second tm (a ∙ f) (first ∙ ap (λ t. (sentinel t).expiration) (sym at)) (b ∙ g)
SetFor-Follows {r} (kept a b at) (empty e) = empty (none_left r.timer_lists (a ∙ ap first_time e))
  where
    none_left : (xs : List TimerEntity) → first_time xs ≡ none → xs ≡ []
    none_left [] h = refl
    none_left (x ∷ xs) h = cc h

same_value : {A : Type 0} (a b : A) (r : Result A) → r ≡ ok a → r ≡ ok b → a ≡ b
same_value a b r h k = ap (value_of a) (sym h ∙ k)

with_timer-IsValid :
    (q : TimerQueue) (ptr : ℕ) (t : Timer)
    → IsValid q
    → Apart ptr q.timer_lists
    → IsValid (record q { heap = update q.heap ptr (some t) })
with_timer-IsValid q ptr t v a = record {
  sorted = v.sorted;
  distinct = v.distinct;
  live = IsLive-update q.heap ptr (some t) q.timer_lists a v.live;
}

with_timer-SetFor :
    (q : TimerQueue) (ptr : ℕ) (t : Timer)
    → SetFor q
    → SetFor (record q { heap = update q.heap ptr (some t) })
with_timer-SetFor q ptr t (left tm a b) = left tm a b
with_timer-SetFor q ptr t (second tm a first b) = second tm a first b
with_timer-SetFor q ptr t (empty e) = empty e

apply-IsArmed :
    (now : ℕ) (op : Op) (q : TimerQueue)
    → IsArmed q
    → Allowed op q
    → (r : TimerQueue) × (apply now op q ≡ ok r) × IsArmed r
unfolding apply
apply-IsArmed now (added ptr t) q i (pos, a) =
    let p : TimerQueue = record q { heap = update q.heap ptr (some t) } in
    let held = update_same q.heap ptr (some t) in
    let sp : IsUsable p = record { was_set = i.usable.was_set; times = i.usable.times } in
    let (r, e, f, s) = add_timer-Follows now p ptr t held pos sp in
    elim (add_timer_lem now p ptr t (with_timer-IsValid q ptr t i.valid_queue a) held a) [
      | inl (y, u, k, vu) ↦ (
        r,
        e,
        record {
          valid_queue = subst IsValid (same_value u r _ k e) vu;
          usable = s;
          armed_for = SetFor-Follows f (with_timer-SetFor q ptr t i.armed_for);
        },
      )
      | inr (z, k) ↦ absurd (omega arith)
    ]
apply-IsArmed now (deleted ptr) q i tt =
    let (f, s) = del_timer_in_loop-Follows now q ptr i.usable in
    (
      del_timer_in_loop now q ptr,
      refl,
      record {
        valid_queue = (del_timer_in_loop_lem now q ptr i.valid_queue).0;
        usable = s;
        armed_for = SetFor-Follows f i.armed_for;
      },
    )
apply-IsArmed now (fired evtime) q i (x, xs, e) =
    let (r, k, f, s) = event_read-Follows evtime now q x xs e i.valid_queue i.usable in
    let (u, ku, vu) = event_read_lem evtime now q i.valid_queue in
    (
      r,
      rw (apply, k) refl,
      record {
        valid_queue =
            subst IsValid (ap (λ (p : List ℕ × TimerQueue). p.1) (same_value _ _ _ ku k)) vu;
        usable = s;
        armed_for = SetFor-Follows f i.armed_for;
      },
    )

-- The queue of the constructor
abbrev made_queue : ℕ → Bool → ℕ → TimerQueue
made_queue now bsetup ptr =
    let e : TimerEntity = record { time = (sentinel now).expiration; ptr = ptr } in
    record (empty_queue now bsetup ptr) { timer_lists = e ∷ [] }

new_timer_queue_eq :
    (now : ℕ) (bsetup : Bool) (ptr : ℕ)
    → new_timer_queue now bsetup ptr
      ≡ ok (reset_timer_fd now (made_queue now bsetup ptr) (sentinel now).expiration)
unfolding new_timer_queue add_timer is_earliest insert_entity
new_timer_queue_eq now bsetup ptr =
    let q = empty_queue now bsetup ptr in
    let held : q.heap ptr ≡ some (sentinel now) = rw ((==_iff ptr ptr).1 refl) refl in
    rw
      (
        new_timer_queue,
        add_timer,
        deref_eq q ptr (sentinel now) held,
        insert_eq q ptr (sentinel now) held (omega arith),
        deref_eq (made_queue now bsetup ptr) ptr (sentinel now) held,
      )
      refl

made-IsUsable :
    (now : ℕ) (bsetup : Bool) (ptr : ℕ)
    → let r = reset_timer_fd now (made_queue now bsetup ptr) (sentinel now).expiration in
      IsUsable r × SetFor r
unfolding reset_timer_fd
made-IsUsable now true ptr = (
  record { was_set = refl; times = (omega arith, tt) },
  left (sentinel now).expiration refl (
      Expires-set now (sentinel now).expiration
        (reset_timer_fd now (made_queue now true ptr) (sentinel now).expiration) refl refl),
)
made-IsUsable now false ptr = (
  record { was_set = refl; times = (omega arith, tt) },
  second (sentinel now).expiration refl refl refl,
)

made-IsArmed :
    (now : ℕ) (bsetup : Bool) (ptr : ℕ) {q : TimerQueue}
    → new_timer_queue now bsetup ptr ≡ ok q
    → IsArmed q
made-IsArmed now bsetup ptr {q} h =
    let (u, e, v) = new_timer_queue_lem now bsetup ptr in
    let (s, f) = made-IsUsable now bsetup ptr in
    let same = same_value _ q _ (new_timer_queue_eq now bsetup ptr) h in
    record {
      valid_queue = subst IsValid (same_value u q _ e h) v;
      usable = subst IsUsable same s;
      armed_for = subst SetFor same f;
    }

-- Over the whole life of a timer queue, from its constructor on and whatever is added, deleted and fired:
-- the queue stays valid, and its descriptor, by the last call that set it, becomes readable at the time of
-- the first of its timers, or 100 microseconds after that call if this is later. The first queue of a
-- process is set for the second of the time of the timer that its constructor adds, as long as this is the
-- first and the descriptor has not been set again. Timers are added with a time that is valid and when
-- they are not in the queue, and an event of the descriptor finds a timer that has expired, and one that
-- has not: `eventRead` returns without setting the descriptor otherwise.
pub Reach-IsArmed : {q : TimerQueue} → Reach q → IsArmed q
Reach-IsArmed (made now bsetup ptr e) = made-IsArmed now bsetup ptr e
Reach-IsArmed (next {q} {r} now op reached ok_op e) =
    let (u, k, i) = apply-IsArmed now op q (Reach-IsArmed reached) ok_op in
    subst IsArmed (same_value u r _ k e) i
