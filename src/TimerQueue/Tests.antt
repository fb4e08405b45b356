-- ===== src/TimerQueue/Tests.antt =====
-- The timer queue at concrete values.
use websocket_cpp.TimerQueue.Histories.{
  apply, added, fired, Reach, made, next, IsArmed, Reach-IsArmed,
}
use websocket_cpp.Base.{
  ℕ, ◌+◌, ◌*◌, ◌<◌, ◌-◌, ◌≡◌, ◌≢◌, refl, [], ◌∷◌, map, true, false, ◌==◌, if◌then◌else◌, arith,
  none, some, ok, max, length,
}
use websocket_cpp.TimerQueue.{
  sentinel, update, new_timer_queue, insert, deref, is_earliest, insert_entity,
  how_much_time_from_now, below, from_bound, reset_expired, restart_all, restart_timer, rearm,
  before, TimerQueue, Timer, never, relative, get_expire_timer, event_read, add_timer,
  del_timer_in_loop, has_ptr, reset_timer_fd,
}
use websocket_cpp.TimerQueue.Live.{Apart, IsValid}
use websocket_cpp.TimerQueue.Events.{event_read_lem}
use websocket_cpp.TimerQueue.Removal.{del_timer_in_loop_lem, reset_timer_fd_lem}

-- A timer that repeats every 200 microseconds, one that does not, and one that is not in the queue.
abbrev tick : Timer
tick = record { expiration = 1000; repeat = true; compute = none; interval = 200 }

abbrev once : Timer
once = record { expiration = 5000; repeat = false; compute = none; interval = 0 }

abbrev later : Timer
later = record { expiration = 3000; repeat = false; compute = none; interval = 0 }

abbrev two_timers : TimerQueue
two_timers = record {
  timer_lists = record { time = 1000; ptr = 8 } ∷ record { time = 5000; ptr = 16 } ∷ [];
  heap = λ p.
      if p == 8
      then some tick
      else if p == 16
      then some once
      else if p == 24
      then some later
      else none;
  armed = never;
  armed_at = 0;
  bsetup = true;
}

two_timers-IsValid : IsValid two_timers
unfolding before
two_timers-IsValid = record {
  sorted = ((refl, tt), (tt, tt));
  distinct = (((λ e. omega arith), tt), (tt, tt));
  live = ((tick, refl, refl), ((once, refl, refl), tt));
}

event_read_example :
    (r : TimerQueue) × (event_read 1500 1600 two_timers
      ≡ ok (map (λ x. x.ptr) (get_expire_timer two_timers 1500).0, r))
    × IsValid r
event_read_example = event_read_lem 1500 1600 two_timers two_timers-IsValid

del_timer_in_loop_example :
    let r = del_timer_in_loop 1600 two_timers 8 in
    IsValid r
    × Apart 8 r.timer_lists
    × ((p : ℕ) → p ≢ 8 → r.heap p ≡ two_timers.heap p)
    × (if has_ptr 8 two_timers.timer_lists
        then (length r.timer_lists + 1 ≡ length two_timers.timer_lists) × (r.heap 8 ≡ none)
        else r ≡ two_timers)
del_timer_in_loop_example = del_timer_in_loop_lem 1600 two_timers 8 two_timers-IsValid

reset_timer_fd_example :
    (s : ℕ) × (ns : ℕ) × ((reset_timer_fd 1600 two_timers 5000).armed ≡ relative s ns)
    × (s * 1000000000 + ns ≡ 1000 * max 100 (5000 - 1600))
    × (ns < 1000000000)
    × (0 < s + ns)
reset_timer_fd_example = reset_timer_fd_lem 1600 two_timers 5000 refl

-- A repeated timer of a second joins the queue of the constructor, which then is set for it, and fires.
abbrev second_timer : Timer
second_timer = record { expiration = 1000100; repeat = true; compute = none; interval = 1000000 }

abbrev fresh : TimerQueue
fresh = record {
  timer_lists = record { time = 31536000000100; ptr = 1 } ∷ [];
  heap = λ p. if p == 1 then some (sentinel 100) else none;
  armed = relative 31536000 0;
  armed_at = 100;
  bsetup = true;
}

abbrev joined : TimerQueue
joined = record {
  timer_lists = record { time = 1000100; ptr = 2 } ∷ record { time = 31536000000100; ptr = 1 } ∷ [];
  heap = update fresh.heap 2 (some second_timer);
  armed = relative 1 0;
  armed_at = 100;
  bsetup = true;
}

abbrev fired_once : TimerQueue
fired_once = record {
  timer_lists = record { time = 2000200; ptr = 2 } ∷ record { time = 31536000000100; ptr = 1 } ∷ [];
  heap = update joined.heap 2 (some (record second_timer { expiration = 2000200 }));
  armed = relative 1 0;
  armed_at = 1000200;
  bsetup = true;
}

Reach-fresh : Reach fresh
unfolding new_timer_queue add_timer insert deref is_earliest insert_entity reset_timer_fd
    how_much_time_from_now
Reach-fresh = made 100 true 1 refl

Reach-joined : Reach joined
unfolding apply add_timer insert deref is_earliest insert_entity before reset_timer_fd
    how_much_time_from_now update
Reach-joined =
    next 100 (added 2 second_timer) Reach-fresh (omega arith, ((λ e. omega arith), tt)) refl

Reach-fired : Reach fired_once
unfolding apply event_read get_expire_timer below from_bound before reset_expired restart_all
    restart_timer rearm insert deref insert_entity is_earliest reset_timer_fd how_much_time_from_now
    update
Reach-fired = next 1000200 (fired 1000150) Reach-joined (_, _, refl) refl

Reach-IsArmed_example : IsArmed fired_once
Reach-IsArmed_example = Reach-IsArmed Reach-fired
