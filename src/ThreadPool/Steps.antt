-- ===== src/ThreadPool/Steps.antt =====
-- The steps of the threads of the pool and of those that use it.
use websocket_cpp.Base.{ℕ, ◌+◌, ◌≡◌, List, [], ◌∷◌, ◌++◌, true, false}
use websocket_cpp.ThreadPool.{ThreadPool, start_pool, run, stop, get_task}

-- `submitted` is the history of the calls of `run`.
pub data Step (p : ThreadPool) (submitted : List ℕ) : ThreadPool → List ℕ → Type 0 where
  submit : (task : ℕ) → Step p submitted (run task p) (submitted ++ (task ∷ []))
  shut_down : Step p submitted (stop p) submitted
  -- `while (brunning_)` of `runInThread`
  stay :
      (n : ℕ)
      → p.at_loop ≡ n + 1
      → p.running ≡ true
      → Step p submitted (record p { at_loop = n; fetching = p.fetching + 1 }) submitted
  leave :
      (n : ℕ)
      → p.at_loop ≡ n + 1
      → p.running ≡ false
      → Step p submitted (record p { at_loop = n; exited = p.exited + 1 }) submitted
  -- `getTask` gets the lock, for the first time and after a `wait`
  fetch :
      (n : ℕ)
      → p.fetching ≡ n + 1
      → Step p submitted (get_task (record p { fetching = n })) submitted
  refetch :
      (n : ℕ) → p.woken ≡ n + 1 → Step p submitted (get_task (record p { woken = n })) submitted
  -- `wait` may return without a notification
  spurious :
      (n : ℕ)
      → p.sleeping ≡ n + 1
      → Step p submitted (record p { sleeping = n; woken = p.woken + 1 }) submitted
  -- a task returns
  return_task :
      (n : ℕ)
      → p.busy ≡ n + 1
      → Step p submitted (record p { busy = n; at_loop = p.at_loop + 1 }) submitted

pub data Reach (thread_num : ℕ) : ThreadPool → List ℕ → Type 0 where
  here : Reach thread_num (start_pool thread_num) []
  next :
      {p q : ThreadPool} {submitted more : List ℕ}
      → Reach thread_num p submitted
      → Step p submitted q more
      → Reach thread_num q more
