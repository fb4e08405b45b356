-- ===== src/ReactorThread/Steps.antt =====
-- The steps of the owner, of the thread, and of the functions that the loop runs.
use websocket_cpp.Base.{◌≡◌, Bool, true, false, Result, ok}
use websocket_cpp.ReactorThread.{
  ReactorThread, new_reactor_thread, at_start, wants_lock, waiting, unlocked, returned, quitting,
  joining, created, looping, leaving, ended, start_thread, test_loop, return_loop, publish,
  begin_destroy, wake_loop, end_destroy,
}

-- `answer` says whether `pthread_create` answers 0.
pub data Step (answer : Bool) (s : ReactorThread) : Result ReactorThread → Type 0 where
  starts :
      {r : Result ReactorThread} → s.owner ≡ at_start → start_thread answer s ≡ r → Step answer s r
  tests : s.owner ≡ wants_lock → Step answer s (ok (test_loop s))
  returns : s.owner ≡ unlocked → Step answer s (ok (return_loop s))
  publishes : s.worker ≡ created → Step answer s (ok (publish s))
  -- a function that the loop runs calls `quit`
  quits : s.worker ≡ looping → s.quit ≡ false → Step answer s (ok (record s { quit = true }))
  -- the test of `bquit_`, and the end of `threadProc`
  leaves : s.worker ≡ looping → s.quit ≡ true → Step answer s (ok (record s { worker = leaving }))
  ends : s.worker ≡ leaving → Step answer s (ok (record s { worker = ended }))
  -- the destructor, before `startLoop` or after it
  unused : {r : Result ReactorThread} → s.owner ≡ at_start → begin_destroy s ≡ r → Step answer s r
  destroys :
      (loop : Bool) {r : Result ReactorThread}
      → s.owner ≡ returned loop
      → begin_destroy s ≡ r
      → Step answer s r
  wakes : {r : Result ReactorThread} → s.owner ≡ quitting → wake_loop s ≡ r → Step answer s r
  joins :
      {r : Result ReactorThread}
      → s.owner ≡ joining
      → s.worker ≡ ended
      → end_destroy s ≡ r
      → Step answer s r

-- A `wait` that returns without a notification
pub data Spurious (s : ReactorThread) : ReactorThread → Type 0 where
  spurious : s.owner ≡ waiting → Spurious s (record s { owner = wants_lock })

pub data Reach (answer : Bool) : ReactorThread → Type 0 where
  here : Reach answer new_reactor_thread
  next : {s t : ReactorThread} → Reach answer s → Step answer s (ok t) → Reach answer t
  stray : {s t : ReactorThread} → Reach answer s → Spurious s t → Reach answer t

-- The states that a run gets to from `s`
pub data Later (answer : Bool) (s : ReactorThread) : ReactorThread → Type 0 where
  now : Later answer s s
  step : {t u : ReactorThread} → Later answer s t → Step answer t (ok u) → Later answer s u
  stray_step : {t u : ReactorThread} → Later answer s t → Spurious t u → Later answer s u
