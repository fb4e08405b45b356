-- ===== src/Reactor/Steps.antt =====
-- The steps of the loop and of the threads that hand it functions.
use websocket_cpp.Base.{ℕ, ◌+◌, ◌<◌, ◌≡◌, ◌≢◌, List, [], ◌∷◌, ◌++◌, true, false}
use websocket_cpp.Reactor.{
  Reactor, new_reactor, push_functor, wake, queue_in_loop, task_wakeup_read, take_functors,
  call_functor, end_running, set_quit,
}

-- Where the thread of the loop stands in `loop`: at the test of `bquit_`, in `poll`, behind it in the
-- callbacks of the handlers, in the calls of `runningTask`, or behind the loop.
pub data Phase : Type 0 where
  at_head polling handling running_tasks exited : Phase

-- `pending` counts the other threads that have pushed a function or set `bquit_`, and have not written
-- the eventfd yet; `queued` is the history of the pushes.
pub record System : Type 0 where
  pub reactor : Reactor
  pub phase : Phase
  pub pending : ℕ
  pub queued : List ℕ

abbrev pub start : System
start = record { reactor = new_reactor; phase = at_head; pending = 0; queued = [] }

pub data Step (s : System) : System → Type 0 where
  -- `queueInLoop` of another thread, up to the push, and after it
  other_push :
      (f : ℕ)
      → Step s (record s {
        reactor = push_functor f s.reactor;
        pending = s.pending + 1;
        queued = s.queued ++ (f ∷ []);
      })
  other_wake :
      (n : ℕ)
      → s.pending ≡ n + 1
      → Step s (record s { reactor = wake false s.reactor; pending = n })
  -- `quit` of another thread; the write of the eventfd is an `other_wake`
  other_quit : Step s (record s { reactor = set_quit s.reactor; pending = s.pending + 1 })
  -- `while (!bquit_)`
  enter : s.phase ≡ at_head → s.reactor.quit ≡ false → Step s (record s { phase = polling })
  leave : s.phase ≡ at_head → s.reactor.quit ≡ true → Step s (record s { phase = exited })
  -- `poll` returns because of the eventfd, which its handler reads
  poll_wakeup :
      s.phase ≡ polling
      → 0 < s.reactor.wakeups
      → Step s (record s { reactor = task_wakeup_read s.reactor; phase = handling })
  -- `poll` returns after a second, or for other descriptors
  poll_other : s.phase ≡ polling → Step s (record s { phase = handling })
  -- a callback of a handler calls `queueInLoop`
  handler_push :
      (f : ℕ)
      → s.phase ≡ handling
      → Step s (record s { reactor = queue_in_loop f s.reactor; queued = s.queued ++ (f ∷ []) })
  -- `runningTask` finds the list empty, or takes it
  skip : s.phase ≡ handling → s.reactor.functor_list ≡ [] → Step s (record s { phase = at_head })
  take :
      s.phase ≡ handling
      → s.reactor.functor_list ≢ []
      → Step s (record s { reactor = take_functors s.reactor; phase = running_tasks })
  -- a function is called, and may call `queueInLoop` itself
  call :
      (f : ℕ) (rest : List ℕ)
      → s.phase ≡ running_tasks
      → s.reactor.running ≡ f ∷ rest
      → Step s (record s { reactor = call_functor f rest s.reactor })
  task_push :
      (f : ℕ)
      → s.phase ≡ running_tasks
      → Step s (record s { reactor = queue_in_loop f s.reactor; queued = s.queued ++ (f ∷ []) })
  finish :
      s.phase ≡ running_tasks
      → s.reactor.running ≡ []
      → Step s (record s { reactor = end_running s.reactor; phase = at_head })

pub data Reach : System → Type 0 where
  here : Reach start
  next : {s t : System} → Reach s → Step s t → Reach t
