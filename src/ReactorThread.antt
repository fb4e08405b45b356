-- ===== src/ReactorThread.antt =====
-- `ReactorThread` of base/ReactorThread.h and base/ReactorThread.cpp: a thread that makes a reactor and runs
-- its loop, and the owner that starts it, waits for the reactor, and destroys it. The lock makes what a
-- thread does under it one step; `wait` gives it up.
pub mod Steps
pub mod Shapes
pub mod Start
pub mod Ends
mod Tests
use websocket_cpp.Base.{◌≡◌, Bool, true, false, if◌then◌else◌, Result, ok, err, faulted, ◌>>=◌}
use websocket_cpp.Thread
use websocket_cpp.Thread.{Thread, new_thread}

-- Where the owner stands: before `startLoop`, in it before the lock or woken from `wait`, in `wait`, behind the
-- lock, behind `startLoop` with what it returned (true if not NULL); in the destructor between the two
-- steps of `quit`, in `join`, and behind the destructor.
pub data Owner : Type 0 where
  at_start wants_lock waiting unlocked : Owner
  returned : (loop : Bool) → Owner
  quitting joining gone : Owner

-- Where the thread stands: there is none; before the lock of `threadProc`; in `loop` of its reactor; behind
-- it; behind `threadProc`, which has destroyed the reactor.
pub data Worker : Type 0 where
  absent created looping leaving ended : Worker

-- `loop` says that `loop_` is not NULL: it points to the reactor then. `quit` is `bquit_` of the reactor.
pub record ReactorThread : Type 0 where
  pub thread : Thread
  pub loop : Bool
  pub owner : Owner
  pub worker : Worker
  pub quit : Bool

-- The constructor
abbrev pub new_reactor_thread : ReactorThread
new_reactor_thread = record {
  thread = new_thread;
  loop = false;
  owner = at_start;
  worker = absent;
  quit = false;
}

-- `startLoop` up to the lock; `answer` says whether `pthread_create` answers 0.
abbrev pub start_thread : Bool → ReactorThread → Result ReactorThread
start_thread answer s = do
  t ← Thread.start answer s.thread
  ok (record s { thread = t; owner = wants_lock; worker = if answer then created else absent })

-- The loop of `startLoop`, for an owner that holds the lock: it waits, or gives the lock up.
abbrev pub test_loop : ReactorThread → ReactorThread
test_loop s = record s { owner = if s.loop then unlocked else waiting }

-- `return loop_`
abbrev pub return_loop : ReactorThread → ReactorThread
return_loop s = record s { owner = returned s.loop }

-- `wait_.notify()`
abbrev pub notify : Owner → Owner
notify waiting = wants_lock
notify o = o

-- `threadProc` up to the loop of its reactor
abbrev pub publish : ReactorThread → ReactorThread
publish s = record s { loop = true; worker = looping; owner = notify s.owner }

-- An access to the reactor that `loop_` points to
abbrev pub alive : Worker → Result (Unit {0})
alive absent = err faulted
alive created = err faulted
alive looping = ok tt
alive leaving = ok tt
alive ended = err faulted

-- The destructor, up to `bquit_ = true` of `quit`
abbrev pub begin_destroy : ReactorThread → Result ReactorThread
begin_destroy s =
    if s.loop
    then (do reached ← alive s.worker; ok (record s { quit = true; owner = quitting }))
    else ok (record s { thread = Thread.destroy s.thread; owner = gone })

-- `eventfdWrite(taskWakeupFd_)` of `quit`
abbrev pub wake_loop : ReactorThread → Result ReactorThread
wake_loop s = do reached ← alive s.worker; ok (record s { owner = joining })

-- `join` and the rest of the destructor, when the thread has ended
abbrev pub end_destroy : ReactorThread → Result ReactorThread
end_destroy s = do
  t ← Thread.join s.thread
  ok (record s { thread = Thread.destroy t; loop = false; owner = gone })
