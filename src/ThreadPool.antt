-- ===== src/ThreadPool.antt =====
-- `ThreadPool` of base/ThreadPool.cpp. A task is a number; the threads of the pool are alike, and
-- counted by where they stand. The lock makes what a thread does under it one step; `wait` gives the lock
-- up, so what comes before and after it are two steps.
pub mod Steps
pub mod Cases
pub mod Once
pub mod Awake
mod Tests
use websocket_cpp.Base.{
  ℕ, zero, suc, ◌+◌, ◌-◌, List, [], ◌∷◌, ◌++◌, Bool, true, false, Option, none, some, ltb,
  if◌then◌else◌,
}

-- `sleeping` threads are in `wait`; `woken` ones are behind it and want the lock. `at_loop` threads are at
-- the test of `brunning_`, `fetching` ones before the lock of `getTask`, `exited` ones at the end of
-- `runInThread`. `busy` are the tasks that threads run now, `started` the history of those.
pub record ThreadPool : Type 0 where
  pub running : Bool
  pub task_list : List ℕ
  pub at_loop : ℕ
  pub fetching : ℕ
  pub sleeping : ℕ
  pub woken : ℕ
  pub exited : ℕ
  pub busy : ℕ
  pub started : List ℕ

-- `start(threadNum)`
abbrev pub start_pool : ℕ → ThreadPool
start_pool thread_num = record {
  running = true;
  task_list = [];
  at_loop = thread_num;
  fetching = 0;
  sleeping = 0;
  woken = 0;
  exited = 0;
  busy = 0;
  started = [];
}

-- `notEmpty_.notify()`
abbrev pub notify : ThreadPool → ThreadPool
notify p =
    if ltb 0 p.sleeping then record p { sleeping = p.sleeping - 1; woken = p.woken + 1 } else p

-- `notEmpty_.notifyAll()`
abbrev pub notify_all : ThreadPool → ThreadPool
notify_all p = record p { sleeping = 0; woken = p.woken + p.sleeping }

-- `run`
abbrev pub run : ℕ → ThreadPool → ThreadPool
run task p = notify (record p { task_list = p.task_list ++ (task ∷ []) })

-- `stop`, before it joins the threads
abbrev pub stop : ThreadPool → ThreadPool
stop p = notify_all (record p { running = false })

-- `getTask` from the test of its loop on, for a thread that holds the lock: it waits, takes the first
-- task, or returns without one.
abbrev pub get_task : ThreadPool → ThreadPool
get_task p = elim p.task_list [
  | [] ↦
      if p.running
      then record p { sleeping = p.sleeping + 1 }
      else record p { at_loop = p.at_loop + 1 }
  | task ∷ rest ↦ record p {
    task_list = rest;
    busy = p.busy + 1;
    started = p.started ++ (task ∷ []);
  }
]
