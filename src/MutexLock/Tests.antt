-- ===== src/MutexLock/Tests.antt =====
-- A lock with two threads.
use websocket_cpp.Base.{◌+◌, ◌<◌, ◌≡◌, refl, ◌⊎◌, true, ok, if◌then◌else◌}
use websocket_cpp.MutexLock.{MutexLock, destroy}
use websocket_cpp.MutexLock.Steps.{
  locks, enters, unlocks, leaves, waits, notifies, returns, Reach, here, next,
}
use websocket_cpp.MutexLock.Exclusion.{excludes}

abbrev waited : MutexLock
waited = record {
  locked = true;
  holder = 0;
  outside = 1;
  entering = 0;
  inside = 1;
  waiting = 0;
  woken = 0;
  leaving = 0;
}

-- A thread waits, another one takes the lock, notifies and leaves, and the first one has the lock again,
-- with `holder_` at 0.
Reach-waited : Reach 2 waited
Reach-waited =
    let a = next (next here (locks 1 refl refl)) (enters 0 refl) in
    let b = next (next (next a (waits 0 refl)) (locks 0 refl refl)) (enters 0 refl) in
    let c = next (next b notifies) (unlocks 0 refl) in
    next (next c (leaves 0 refl)) (returns 0 refl refl)

excludes_example :
    (waited.entering + waited.inside ≡ (if waited.locked then 1 else 0))
    × ((waited.outside < 2) ⊎ (destroy waited ≡ ok tt))
excludes_example = excludes Reach-waited
