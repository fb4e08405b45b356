-- ===== src/Reactor.antt =====
-- `Reactor` of base/Reactor.h and base/Reactor.cpp: the queue of functions that other threads hand to the
-- thread of the loop, and the loop. A function is a number. A step is what one thread does between two
-- points at which another may come in between: the lock `mutex_` makes the push and the swap one step
-- each, and the write of the eventfd after a push is a step of its own.
pub mod Steps
pub mod Order
pub mod Wakeup
mod Tests
use websocket_cpp.Base.{
  ℕ, zero, suc, ◌+◌, List, [], ◌∷◌, ◌++◌, Bool, true, false, not, if◌then◌else◌,
}

-- `running` is what is left of the local vector of `runningTask`, `wakeups` the counter of the eventfd,
-- and `done` the functions that were called from the queue, in order.
pub record Reactor : Type 0 where
  pub functor_list : List ℕ
  pub running : List ℕ
  pub task_running : Bool
  pub wakeups : ℕ
  pub quit : Bool
  pub done : List ℕ

-- The constructor
abbrev pub new_reactor : Reactor
new_reactor = record {
  functor_list = [];
  running = [];
  task_running = false;
  wakeups = 0;
  quit = false;
  done = [];
}

-- `functorList_.push_back(func)` of `queueInLoop`
abbrev pub push_functor : ℕ → Reactor → Reactor
push_functor f r = record r { functor_list = r.functor_list ++ (f ∷ []) }

-- `eventfdWrite(taskWakeupFd_)`
abbrev pub eventfd_write : Reactor → Reactor
eventfd_write r = record r { wakeups = r.wakeups + 1 }

-- The two tests of `queueInLoop` after the push
abbrev pub wake_if_running : Reactor → Reactor
wake_if_running r = if r.task_running then eventfd_write r else r

abbrev pub wake : (in_loop : Bool) → Reactor → Reactor
wake in_loop r = wake_if_running (if in_loop then r else eventfd_write r)

-- `queueInLoop` from the thread of the loop, which no other step divides
abbrev pub queue_in_loop : ℕ → Reactor → Reactor
queue_in_loop f r = wake true (push_functor f r)

-- `taskWakeupRead`: the read of an eventfd sets it to 0.
abbrev pub task_wakeup_read : Reactor → Reactor
task_wakeup_read r = record r { wakeups = 0 }

-- The swap of `runningTask`, with `btaskRunning_` set before it
abbrev pub take_functors : Reactor → Reactor
take_functors r = record r { running = r.functor_list; functor_list = []; task_running = true }

-- `functor[i]()`
abbrev pub call_functor : ℕ → List ℕ → Reactor → Reactor
call_functor f rest r = record r { running = rest; done = r.done ++ (f ∷ []) }

-- The end of `runningTask`
abbrev pub end_running : Reactor → Reactor
end_running r = record r { task_running = false }

-- `bquit_ = true` of `quit`; the write of the eventfd comes after it.
abbrev pub set_quit : Reactor → Reactor
set_quit r = record r { quit = true }
