-- ===== src/MutexLock/Exclusion.antt =====
-- What holds of a lock in all interleavings of the threads that use it.
use native.Mathlib.Decide.{dec_lt}
use websocket_cpp.Base.{◌⊎◌, inl, inr, ℕ, ◌+◌, ◌<◌, ◌≡◌, ◌≢◌, if◌then◌else◌, ok, arith}
use websocket_cpp.MutexLock.{MutexLock, destroy}
use websocket_cpp.MutexLock.Steps.{
  Step, locks, enters, unlocks, leaves, waits, spurious, returns, notifies, notifies_all, Reach,
  here, next,
}

pub record IsGuarded (threads : ℕ) (l : MutexLock) : Type 0 where
  pub one : l.entering + l.inside ≡ (if l.locked then 1 else 0)
  pub held : l.holder ≢ 0 → 0 < l.inside + l.waiting + l.woken + l.leaving
  pub whole : l.outside + l.entering + l.inside + l.waiting + l.woken + l.leaving ≡ threads

Step-IsGuarded :
    {threads : ℕ} {l m : MutexLock} → Step l m → IsGuarded threads l → IsGuarded threads m
Step-IsGuarded (locks n e f) v = ground arith
Step-IsGuarded (enters n e) v = ground arith
Step-IsGuarded (unlocks n e) v = ground arith
Step-IsGuarded (leaves n e) v = ground arith
Step-IsGuarded (waits n e) v = ground arith
Step-IsGuarded (spurious n e) v = ground arith
Step-IsGuarded (returns n e f) v = ground arith
Step-IsGuarded notifies v = ground arith
Step-IsGuarded notifies_all v = ground arith

pub Reach-IsGuarded : {threads : ℕ} {l : MutexLock} → Reach threads l → IsGuarded threads l
Reach-IsGuarded here = ground arith
Reach-IsGuarded (next r st) = Step-IsGuarded st (Reach-IsGuarded r)

-- In every state that the threads of a program reach, with waits on a condition, notifications and
-- spurious wakeups: one thread has the lock if the mutex of pthread is locked, and none otherwise; and
-- unless some thread is still between the beginning of `lock` and the end of `unlock`, the assertions of
-- the destructor hold.
pub excludes :
    {threads : ℕ} {l : MutexLock}
    → Reach threads l
    → (l.entering + l.inside ≡ (if l.locked then 1 else 0))
      × ((l.outside < threads) ⊎ (destroy l ≡ ok tt))
excludes {threads} {l} r =
    let v = Reach-IsGuarded r in
    (v.one, elim (dec_lt l.outside threads) [ yes h ↦ inl h | no h ↦ inr (ground arith) ])
