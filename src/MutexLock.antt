-- ===== src/MutexLock.antt =====
-- `MutexLock` and `LockGuard` of base/MutexLock.h, and `Condition` of base/Condition.h. The calls of
-- pthread answer 0. Threads are alike, and counted by where they stand.
pub mod Steps
pub mod Exclusion
mod Tests
use websocket_cpp.Base.{
  ℕ, ◌+◌, ◌-◌, Bool, true, false, not, ltb, ◌==◌, if◌then◌else◌, Result, ok, ◌>>=◌, ◌>>◌, assert,
}

-- `locked` is the state of `mutex_`, `holder` the member. `entering` threads are in `lock`, between the call
-- of pthread and the write of `holder_`; `inside` ones have the lock; `waiting` and `woken` ones are in
-- `wait` of a condition, before and after a notification; `leaving` ones are in `unlock`, between the call
-- of pthread and the write of `holder_`. The others are `outside`.
pub record MutexLock : Type 0 where
  pub locked : Bool
  pub holder : ℕ
  pub outside : ℕ
  pub entering : ℕ
  pub inside : ℕ
  pub waiting : ℕ
  pub woken : ℕ
  pub leaving : ℕ

-- The constructor, with `threads` to use it
abbrev pub new_mutex_lock : ℕ → MutexLock
new_mutex_lock threads = record {
  locked = false;
  holder = 0;
  outside = threads;
  entering = 0;
  inside = 0;
  waiting = 0;
  woken = 0;
  leaving = 0;
}

-- `pthread_mutex_lock` and `holder_ = 1` of `lock`, which is the constructor of `LockGuard`; `n` others
-- stay outside, none in between
abbrev pub acquire : ℕ → MutexLock → MutexLock
acquire n l = record l { locked = true; outside = n; entering = l.entering + 1 }

abbrev pub set_holder : ℕ → MutexLock → MutexLock
set_holder n l = record l { holder = 1; entering = n; inside = l.inside + 1 }

-- `pthread_mutex_unlock` and `holder_ = 0` of `unlock`, which is the destructor of `LockGuard`
abbrev pub release : ℕ → MutexLock → MutexLock
release n l = record l { locked = false; inside = n; leaving = l.leaving + 1 }

abbrev pub clear_holder : ℕ → MutexLock → MutexLock
clear_holder n l = record l { holder = 0; leaving = n; outside = l.outside + 1 }

-- `wait`, which gives the lock up and has it again when it returns
abbrev pub begin_wait : ℕ → MutexLock → MutexLock
begin_wait n l = record l { locked = false; inside = n; waiting = l.waiting + 1 }

abbrev pub end_wait : ℕ → MutexLock → MutexLock
end_wait n l = record l { locked = true; woken = n; inside = l.inside + 1 }

abbrev pub notify : MutexLock → MutexLock
notify l = if ltb 0 l.waiting then record l { waiting = l.waiting - 1; woken = l.woken + 1 } else l

abbrev pub notify_all : MutexLock → MutexLock
notify_all l = record l { waiting = 0; woken = l.woken + l.waiting }

-- The destructor; `pthread_mutex_destroy` answers EBUSY for a mutex that is locked.
abbrev pub destroy : MutexLock → Result (Unit {0})
destroy l = do assert (l.holder == 0); assert (not l.locked)
