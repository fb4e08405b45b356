-- ===== src/TimerQueue/Removal.antt =====
-- `delTimerInLoop`, and what is given to `timerfd_settime`.
use websocket_cpp.Base.{
  ℕ, ◌+◌, ◌-◌, ◌*◌, ◌/◌, ◌%◌, ◌<◌, ◌≡◌, ◌≢◌, refl, sym, subst, ◌∙◌, List, [], ◌∷◌, true, false,
  Bool, ltb, ◌==◌, if◌then◌else◌, arith, Bool-cases, inl, inr, none, ==_iff, length, max,
}
use websocket_cpp.TimerQueue.{
  TimerQueue, TimerEntity, update, before, reset_timer_fd, rearm_first, del_timer_in_loop,
  remove_ptr, has_ptr, Armed, absolute, relative, how_much_time_from_now,
}
use websocket_cpp.TimerQueue.Order.{All, IsSorted}
use websocket_cpp.TimerQueue.Live.{
  Apart, IsDistinct, IsLive, IsValid, update_same, update_other, IsLive-update,
}

All-remove_ptr :
    (P : TimerEntity → Type 0) (ptr : ℕ) (xs : List TimerEntity)
    → All P xs
    → All P (remove_ptr ptr xs)
unfolding remove_ptr
All-remove_ptr P ptr [] h = tt
All-remove_ptr P ptr (x ∷ xs) h = elim (Bool-cases (x.ptr == ptr)) [
  | inl y ↦ rw y h.1
  | inr n ↦ rw n (h.0, All-remove_ptr P ptr xs h.1)
]

IsSorted-remove_ptr : (ptr : ℕ) (xs : List TimerEntity) → IsSorted xs → IsSorted (remove_ptr ptr xs)
unfolding remove_ptr
IsSorted-remove_ptr ptr [] h = tt
IsSorted-remove_ptr ptr (x ∷ xs) h = elim (Bool-cases (x.ptr == ptr)) [
  | inl y ↦ rw y h.1
  | inr n ↦
      rw n (All-remove_ptr (λ y. before x y ≡ true) ptr xs h.0, IsSorted-remove_ptr ptr xs h.1)
]

IsDistinct-remove_ptr :
    (ptr : ℕ) (xs : List TimerEntity)
    → IsDistinct xs
    → IsDistinct (remove_ptr ptr xs) × Apart ptr (remove_ptr ptr xs)
unfolding remove_ptr
IsDistinct-remove_ptr ptr [] h = (tt, tt)
IsDistinct-remove_ptr ptr (x ∷ xs) h = elim (Bool-cases (x.ptr == ptr)) [
  | inl y ↦ rw y (h.1, subst (λ p. Apart p xs) ((==_iff x.ptr ptr).0 y) h.0)
  | inr n ↦
      let (d, a) = IsDistinct-remove_ptr ptr xs h.1 in
      let other : x.ptr ≢ ptr = λ e. clash (sym ((==_iff x.ptr ptr).1 e) ∙ n) in
      rw n ((All-remove_ptr (λ y. y.ptr ≢ x.ptr) ptr xs h.0, d), (other, a))
]
  where
    clash : true ≢ false
    clash e = cc e

has_ptr-Apart : (ptr : ℕ) (xs : List TimerEntity) → has_ptr ptr xs ≡ false → Apart ptr xs
unfolding has_ptr
has_ptr-Apart ptr [] h = tt
has_ptr-Apart ptr (x ∷ xs) h = ground (arith, has_ptr-Apart ptr xs, ==_iff x.ptr ptr)

length-remove_ptr :
    (ptr : ℕ) (xs : List TimerEntity)
    → has_ptr ptr xs ≡ true
    → length (remove_ptr ptr xs) + 1 ≡ length xs
unfolding has_ptr remove_ptr
length-remove_ptr ptr [] h = cc h
length-remove_ptr ptr (x ∷ xs) h = elim (Bool-cases (x.ptr == ptr)) [
  | inl y ↦ rw y (omega arith)
  | inr n ↦ rw n (omega (arith, length-remove_ptr ptr xs (rw n at h)))
]

rearm_first_lem :
    (now : ℕ) (q : TimerQueue) (xs : List TimerEntity)
    → (a : Armed) × (at : ℕ) × (b : Bool) × (rearm_first now q xs
        ≡ record q { armed = a; armed_at = at; bsetup = b })
unfolding rearm_first reset_timer_fd
rearm_first_lem now q [] = (q.armed, q.armed_at, q.bsetup, refl)
rearm_first_lem now q (x ∷ xs) = elim (Bool-cases q.bsetup) [
  | inl y ↦ (how_much_time_from_now now x.time, now, true, ground arith)
  | inr n ↦ (absolute (x.time / 1000000), now, true, ground arith)
]

-- `delTimerInLoop` on a valid queue: the timer is gone from the queue, other timers are not touched,
-- and the queue stays valid. If the timer was there, one entity is gone and the timer is deleted, else
-- nothing changes.
pub del_timer_in_loop_lem :
    (now : ℕ) (q : TimerQueue) (ptr : ℕ)
    → IsValid q
    → let r = del_timer_in_loop now q ptr in
      IsValid r
      × Apart ptr r.timer_lists
      × ((p : ℕ) → p ≢ ptr → r.heap p ≡ q.heap p)
      × (if has_ptr ptr q.timer_lists
          then (length r.timer_lists + 1 ≡ length q.timer_lists) × (r.heap ptr ≡ none)
          else r ≡ q)
unfolding del_timer_in_loop
del_timer_in_loop_lem now q ptr v = elim (Bool-cases (has_ptr ptr q.timer_lists)) [
  | inl y ↦
      let (d, a) = IsDistinct-remove_ptr ptr q.timer_lists v.distinct in
      let r : TimerQueue = record q {
        timer_lists = remove_ptr ptr q.timer_lists;
        heap = update q.heap ptr none;
      } in
      let vr : IsValid r = record {
        sorted = IsSorted-remove_ptr ptr q.timer_lists v.sorted;
        distinct = d;
        live =
            IsLive-update q.heap ptr none (remove_ptr ptr q.timer_lists) a
              (All-remove_ptr (IsLive q.heap) ptr q.timer_lists v.live);
      } in
      let (armed, armed_at, bsetup, e) = rearm_first_lem now r r.timer_lists in
      rw (y, e)
        (
          record { sorted = vr.sorted; distinct = vr.distinct; live = vr.live },
          a,
          (λ p n. update_other q.heap ptr p none n),
          (length-remove_ptr ptr q.timer_lists y, update_same q.heap ptr none),
        )
  | inr n ↦ rw n (v, has_ptr-Apart ptr q.timer_lists n, (λ p m. refl), refl)
]

-- After the first time, `resetTimerFd` sets the timer descriptor to the time of `tm`, but at least 100
-- microseconds from now; it is never disarmed, since the two fields are not both 0, and the
-- nanoseconds are less than a second.
pub reset_timer_fd_lem :
    (now : ℕ) (q : TimerQueue) (tm : ℕ)
    → q.bsetup ≡ true
    → (s : ℕ) × (ns : ℕ) × ((reset_timer_fd now q tm).armed ≡ relative s ns)
      × (s * 1000000000 + ns ≡ 1000 * max 100 (tm - now))
      × (ns < 1000000000)
      × (0 < s + ns)
unfolding reset_timer_fd how_much_time_from_now
reset_timer_fd_lem now q tm h =
    let us = if ltb (tm - now) 100 then 100 else tm - now in
    let big : us ≡ max 100 (tm - now) = ground arith in
    (us / 1000000, us % 1000000 * 1000, rw h refl, omega arith, omega arith, omega arith)
