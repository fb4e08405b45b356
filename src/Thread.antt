-- ===== src/Thread.antt =====
-- `Thread` of base/Thread.h and base/Thread.cpp: what is done with the handle of `pthread_create`.
pub mod Calls
mod Tests
use websocket_cpp.Base.{
  ℕ, ◌+◌, ◌-◌, List, [], ◌∷◌, Bool, true, false, not, ◌&&◌, if◌then◌else◌, Result, ok, err, aborted,
  ◌>>=◌, ◌>>◌, assert,
}

-- `handles` counts the threads of pthread that were created and not joined or detached yet.
pub record Thread : Type 0 where
  pub started : Bool
  pub joined : Bool
  pub handles : ℕ

-- The constructor
abbrev pub new_thread : Thread
new_thread = record { started = false; joined = false; handles = 0 }

-- `start`, where `created` says whether `pthread_create` answers 0
abbrev pub start : Bool → Thread → Result Thread
start created t = do
  assert (not t.started)
  ok (
      if created
      then record t { started = true; handles = t.handles + 1 }
      else record t { started = false })

-- `join`, when the thread has ended
abbrev pub join : Thread → Result Thread
join t = do
  assert t.started
  assert (not t.joined)
  ok (record t { joined = true; handles = t.handles - 1 })

-- The destructor, which detaches
abbrev pub destroy : Thread → Thread
destroy t = if t.started && not t.joined then record t { handles = t.handles - 1 } else t
