-- ===== src/ReactorThread/Shapes.antt =====
-- Which states the owner and the thread reach.
use websocket_cpp.Base.{◌≡◌, Bool, true, false, not, ◌&&◌, if◌then◌else◌, ok, arith}
use websocket_cpp.Thread.{Thread, new_thread}
use websocket_cpp.ReactorThread.{
  ReactorThread, Owner, at_start, wants_lock, waiting, unlocked, returned, quitting, joining, gone,
  Worker, absent, created, looping, leaving, ended,
}
use websocket_cpp.ReactorThread.Steps.{
  Step, starts, tests, returns, publishes, quits, leaves, ends, unused, destroys, wakes, joins,
  spurious, Reach, here, next, stray,
}

-- `Thread` in such a state: it was created and not joined yet, there is none, or it was joined.
abbrev pub thread_at : Bool → Owner → Worker → Thread
thread_at answer at_start w = new_thread
thread_at answer gone absent = new_thread
thread_at answer gone _ = record { started = true; joined = true; handles = 0 }
thread_at true _ w = record { started = true; joined = false; handles = 1 }
thread_at false _ w = new_thread

-- The reactor of the thread is there, or was: it ends only after `bquit_` is set.
abbrev pub ran : Worker → Bool → Bool
ran absent quit = false
ran created quit = false
ran looping quit = true
ran leaving quit = quit
ran ended quit = quit

abbrev pub idle : Worker → Bool
idle absent = true
idle _ = false

abbrev pub expected : Bool → Worker → Bool
expected true created = true
expected false absent = true
expected _ _ = false

abbrev pub over : Worker → Bool
over absent = true
over ended = true
over _ = false

-- `answer`, the owner, the thread, `loop_` and `bquit_`
abbrev pub fits : Bool → Owner → Worker → Bool → Bool → Bool
fits answer at_start w loop quit = idle w && not loop && not quit
fits answer wants_lock w loop quit =
    if loop then answer && ran w quit else expected answer w && not quit
fits answer waiting w loop quit = not loop && expected answer w && not quit
fits answer unlocked w loop quit = loop && answer && ran w quit
fits answer (returned p) w loop quit = p && loop && answer && ran w quit
fits answer quitting w loop quit = loop && answer && quit && ran w quit
fits answer joining w loop quit = loop && answer && quit && ran w quit
fits answer gone w loop quit = over w && not loop

pub record IsSound (answer : Bool) (s : ReactorThread) : Type 0 where
  pub fit : fits answer s.owner s.worker s.loop s.quit ≡ true
  pub thread : s.thread ≡ thread_at answer s.owner s.worker

Step-IsSound :
    {answer : Bool} {s t : ReactorThread}
    → Step answer s (ok t)
    → IsSound answer s
    → IsSound answer t
Step-IsSound (starts o e) v = ground arith
Step-IsSound (tests o) v = ground arith
Step-IsSound (returns o) v = ground arith
Step-IsSound (publishes w) v = ground arith
Step-IsSound (quits w q) v = ground arith
Step-IsSound (leaves w q) v = ground arith
Step-IsSound (ends w) v = ground arith
Step-IsSound (unused o e) v = ground arith
Step-IsSound (destroys p o e) v = ground arith
Step-IsSound (wakes o e) v = ground arith
Step-IsSound (joins o w e) v = ground arith

pub Reach-IsSound : {answer : Bool} {s : ReactorThread} → Reach answer s → IsSound answer s
Reach-IsSound here = ground arith
Reach-IsSound (next r st) = Step-IsSound st (Reach-IsSound r)
Reach-IsSound (stray r (spurious o)) = let v = Reach-IsSound r in ground arith
