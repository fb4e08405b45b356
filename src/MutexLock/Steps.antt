-- ===== src/MutexLock/Steps.antt =====
-- The steps of the threads that use a lock and a condition.
use websocket_cpp.Base.{ℕ, ◌+◌, ◌≡◌, false}
use websocket_cpp.MutexLock.{
  MutexLock, new_mutex_lock, acquire, set_holder, release, clear_holder, begin_wait, end_wait,
  notify, notify_all,
}

pub data Step (l : MutexLock) : MutexLock → Type 0 where
  locks : (n : ℕ) → l.outside ≡ n + 1 → l.locked ≡ false → Step l (acquire n l)
  enters : (n : ℕ) → l.entering ≡ n + 1 → Step l (set_holder n l)
  unlocks : (n : ℕ) → l.inside ≡ n + 1 → Step l (release n l)
  leaves : (n : ℕ) → l.leaving ≡ n + 1 → Step l (clear_holder n l)
  waits : (n : ℕ) → l.inside ≡ n + 1 → Step l (begin_wait n l)
  -- pthread may wake a thread without a notification, or the time of `waitForSeconds` is over
  spurious : (n : ℕ) → l.waiting ≡ n + 1 → Step l (record l { waiting = n; woken = l.woken + 1 })
  returns : (n : ℕ) → l.woken ≡ n + 1 → l.locked ≡ false → Step l (end_wait n l)
  -- from any thread, with the lock or without it
  notifies : Step l (notify l)
  notifies_all : Step l (notify_all l)

pub data Reach (threads : ℕ) : MutexLock → Type 0 where
  here : Reach threads (new_mutex_lock threads)
  next : {l m : MutexLock} → Reach threads l → Step l m → Reach threads m
