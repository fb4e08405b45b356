-- ===== src/ReactorThread/Tests.antt =====
-- A reactor that is waited for, and one whose thread cannot be created.
use websocket_cpp.Base.{◌≡◌, refl, true, false, Failure, faulted}
use websocket_cpp.Thread.{Thread}
use websocket_cpp.ReactorThread.{
  ReactorThread, new_reactor_thread, wants_lock, waiting, returned, created, looping, ended,
}
use websocket_cpp.ReactorThread.Steps.{
  starts, tests, returns, publishes, quits, leaves, ends, destroys, spurious, Reach, here, next,
  now, step, stray_step,
}
use websocket_cpp.ReactorThread.Start.{start_loop-Ends, failed_create_hangs, in_start_loop, Ends}
use websocket_cpp.ReactorThread.Ends.{fails_after_end, Faults, destroy-Faults}

abbrev running : Thread
running = record { started = true; joined = false; handles = 1 }

abbrev waits : ReactorThread
waits = record new_reactor_thread { thread = running; owner = waiting; worker = created }

Reach-waits : Reach true waits
Reach-waits = next (next here (starts refl refl)) (tests refl)

start_loop-Ends_example : Ends waits
start_loop-Ends_example = start_loop-Ends Reach-waits

abbrev again : ReactorThread
again = record new_reactor_thread { owner = waiting }

Reach-again : Reach false again
Reach-again = next (next here (starts refl refl)) (tests refl)

-- The owner is woken without a notification, waits again, and is woken again.
failed_create_hangs_example : in_start_loop wants_lock ≡ true
failed_create_hangs_example =
    failed_create_hangs {t = record again { owner = wants_lock }} Reach-again refl
      (stray_step (step (stray_step now (spurious refl)) (tests refl)) (spurious refl))

abbrev has_loop : ReactorThread
has_loop = record waits { loop = true; owner = returned true; worker = looping }

Reach-has_loop : Reach true has_loop
Reach-has_loop = next (next (next Reach-waits (publishes refl)) (tests refl)) (returns refl)

destroy-Faults_example : Faults has_loop
destroy-Faults_example = destroy-Faults true Reach-has_loop refl

-- A function in the loop calls `quit`, the thread ends, and the destructor runs.
abbrev over : ReactorThread
over = record has_loop { worker = ended; quit = true }

Reach-over : Reach true over
Reach-over = next (next (next Reach-has_loop (quits refl refl)) (leaves refl refl)) (ends refl)

fails_after_end_example : (◌≡◌ {A = Failure} faulted faulted) × (over.worker ≡ ended)
fails_after_end_example = fails_after_end Reach-over (destroys true refl refl)
