-- ===== src/ThreadPool/Once.antt =====
-- Each task is started once, in the order of the calls of `run`, and no thread is lost.
use websocket_cpp.Base.{ℕ, ◌+◌, ◌≡◌, refl, ap, sym, ◌∙◌, List, [], ◌∷◌, ◌++◌, append_assoc, arith}
use websocket_cpp.ThreadPool.{ThreadPool, notify, get_task}
use websocket_cpp.ThreadPool.Steps.{
  Step, submit, shut_down, stay, leave, fetch, refetch, spurious, return_task, Reach, here, next,
}
use websocket_cpp.ThreadPool.Cases.{
  waits, gives_up, takes, get_task-cases, nobody, somebody, notify-cases,
}

-- The tasks that were started, and then those that wait
abbrev pub all_tasks : ThreadPool → List ℕ
all_tasks p = p.started ++ p.task_list

-- The threads of the pool, wherever they stand
abbrev pub threads : ThreadPool → ℕ
threads p = p.at_loop + p.fetching + p.sleeping + p.woken + p.exited + p.busy

notify-tasks : (p : ThreadPool) → all_tasks (notify p) ≡ all_tasks p
notify-tasks p = elim (notify-cases p) [
  | nobody z e ↦ ap all_tasks e
  | somebody n z e ↦ ap all_tasks e
]

notify-threads : (p : ThreadPool) → threads (notify p) ≡ threads p
notify-threads p = elim (notify-cases p) [
  | nobody z e ↦ ap threads e
  | somebody n z e ↦ ap threads e ∙ omega arith
]

get_task-tasks : (p : ThreadPool) → all_tasks (get_task p) ≡ all_tasks p
get_task-tasks p = elim (get_task-cases p) [
  | waits l r e ↦ ap all_tasks e
  | gives_up l r e ↦ ap all_tasks e
  | takes task rest l e ↦
      ap all_tasks e ∙ append_assoc p.started (task ∷ []) rest ∙ ap (λ t. p.started ++ t) (sym l)
]

get_task-threads : (p : ThreadPool) → threads (get_task p) ≡ threads p + 1
get_task-threads p = elim (get_task-cases p) [
  | waits l r e ↦ ap threads e ∙ omega arith
  | gives_up l r e ↦ ap threads e ∙ omega arith
  | takes task rest l e ↦ ap threads e ∙ omega arith
]

-- Nothing was lost: tasks and threads.
abbrev pub IsWhole : ℕ → ThreadPool → List ℕ → Type 0
IsWhole n p submitted = (all_tasks p ≡ submitted) × (threads p ≡ n)

Step-IsWhole :
    {n : ℕ} {p q : ThreadPool} {submitted more : List ℕ}
    → Step p submitted q more
    → IsWhole n p submitted
    → IsWhole n q more
Step-IsWhole {p = p} (submit task) (t, h) = (
  notify-tasks (record p { task_list = p.task_list ++ (task ∷ []) })
      ∙ sym (append_assoc p.started p.task_list (task ∷ []))
      ∙ ap (λ l. l ++ (task ∷ [])) t,
  notify-threads (record p { task_list = p.task_list ++ (task ∷ []) }) ∙ h,
)
Step-IsWhole shut_down (t, h) = (t, omega arith)
Step-IsWhole (stay k e r) (t, h) = (t, omega arith)
Step-IsWhole (leave k e r) (t, h) = (t, omega arith)
Step-IsWhole {p = p} (fetch k e) (t, h) = (
  get_task-tasks (record p { fetching = k }) ∙ t,
  omega (arith, get_task-threads (record p { fetching = k })),
)
Step-IsWhole {p = p} (refetch k e) (t, h) = (
  get_task-tasks (record p { woken = k }) ∙ t,
  omega (arith, get_task-threads (record p { woken = k })),
)
Step-IsWhole (spurious k e) (t, h) = (t, omega arith)
Step-IsWhole (return_task k e) (t, h) = (t, omega arith)

-- In every reachable state of a pool of `n` threads, the tasks that were started, and then those that
-- wait, are those that were handed to `run`, in order: each is started once at most and none before an
-- earlier one. And the pool still has its `n` threads, counted wherever they stand.
pub Reach-IsWhole :
    {n : ℕ} {p : ThreadPool} {submitted : List ℕ} → Reach n p submitted → IsWhole n p submitted
Reach-IsWhole here = (refl, omega arith)
Reach-IsWhole (next r st) = Step-IsWhole st (Reach-IsWhole r)
