-- ===== src/ReactorThread/Ends.antt =====
-- The destructor, and the reactor that the thread destroys by itself.
use websocket_cpp.Base.{◌≡◌, refl, Bool, true, err, Failure, faulted, arith}
use websocket_cpp.ReactorThread.{
  ReactorThread, returned, quitting, Worker, absent, created, looping, leaving, ended,
}
use websocket_cpp.ReactorThread.Steps.{
  Step, starts, leaves, ends, unused, destroys, wakes, joins, Reach, Later, now, step,
}
use websocket_cpp.ReactorThread.Shapes.{IsSound, Reach-IsSound}

fails_only :
    {answer : Bool} {s : ReactorThread} {how : Failure}
    → Step answer s (err how)
    → IsSound answer s
    → (how ≡ faulted) × (s.worker ≡ ended)
fails_only (starts o e) v = absurd (ground arith)
fails_only (unused o e) v = absurd (ground arith)
fails_only (destroys p o e) v = ground arith
fails_only (wakes o e) v = ground arith
fails_only (joins o w e) v = absurd (ground arith)

-- No assertion of the threads fails in any interleaving, whether `pthread_create` answers 0 or not. The
-- only failure is an access to the reactor by the destructor after the thread has ended, which destroyed
-- it.
pub fails_after_end :
    {answer : Bool} {s : ReactorThread} {how : Failure}
    → Reach answer s
    → Step answer s (err how)
    → (how ≡ faulted) × (s.worker ≡ ended)
fails_after_end r st = fails_only st (Reach-IsSound r)

-- A run from `s` to a failure
abbrev pub Faults : ReactorThread → Type 0
Faults s = (t : ReactorThread) × Later true s t × Step true t (err faulted)

Faults-at :
    (s : ReactorThread) (w : Worker) (p : Bool)
    → s.worker ≡ w
    → s.owner ≡ returned p
    → IsSound true s
    → Faults s
Faults-at s absent p w o v = absurd (ground arith)
Faults-at s created p w o v = absurd (ground arith)
Faults-at s looping p w o v =
    let t = record s { quit = true; owner = quitting } in
    (
      record t { worker = ended },
      step (step (step now (destroys p o (ground arith))) (leaves w refl)) (ends refl),
      wakes refl refl,
    )
Faults-at s leaving p w o v =
    let t = record s { quit = true; owner = quitting } in
    (
      record t { worker = ended },
      step (step now (destroys p o (ground arith))) (ends w),
      wakes refl refl,
    )
Faults-at s ended p w o v = (s, now, destroys p o (ground arith))

-- Whenever `startLoop` has returned, whatever the thread has done since, there is a run in which the
-- destructor accesses the reactor after its thread has destroyed it: `quit` sets `bquit_` before it writes
-- the eventfd, and the loop may end in between.
pub destroy-Faults :
    {s : ReactorThread} (loop : Bool) → Reach true s → s.owner ≡ returned loop → Faults s
destroy-Faults {s} loop r o = Faults-at s s.worker loop refl o (Reach-IsSound r)
