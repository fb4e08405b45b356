-- ===== src/ThreadPool/Awake.antt =====
-- No task waits while all threads that could run it sleep.
use websocket_cpp.Base.{
  ℕ, ◌+◌, ◌≤◌, ◌≡◌, ◌≢◌, refl, ap, sym, subst, ◌∙◌, List, [], ◌∷◌, ◌++◌, length, length-append,
  true, false, ◌⊎◌, inl, inr, arith,
}
use websocket_cpp.ThreadPool.{ThreadPool, run, get_task}
use websocket_cpp.ThreadPool.Steps.{
  Step, submit, shut_down, stay, leave, fetch, refetch, spurious, return_task, Reach, here, next,
}
use websocket_cpp.ThreadPool.Cases.{
  waits, gives_up, takes, get_task-cases, nobody, somebody, notify-cases,
}

-- No thread sleeps, or the pool runs and there is a woken thread for every task that waits.
abbrev pub IsAwake : ThreadPool → Type 0
IsAwake p = (p.sleeping ≡ 0) ⊎ ((p.running ≡ true) × (length p.task_list ≤ p.woken))

run-IsAwake : (task : ℕ) (p : ThreadPool) → IsAwake p → IsAwake (run task p)
run-IsAwake task p a = elim (notify-cases (record p { task_list = p.task_list ++ (task ∷ []) })) [
  | nobody z e ↦ inl (ap (λ q. q.sleeping) e ∙ z)
  | somebody n z e ↦ subst IsAwake (sym e) (one n z a)
]
  where
    one :
        (n : ℕ)
        → p.sleeping ≡ n + 1
        → IsAwake p
        → IsAwake
            (record p { task_list = p.task_list ++ (task ∷ []); sleeping = n; woken = p.woken + 1 })
    one n z (inl none_sleeps) = absurd (omega arith)
    one n z (inr (r, h)) = inr (r, omega (arith, length-append p.task_list (task ∷ [])))

-- A thread that was not asleep and holds the lock: `less` is what `getTask` starts from.
get_task-IsAwake :
    (p : ThreadPool)
    → (p.sleeping ≡ 0) ⊎ ((p.running ≡ true) × (length p.task_list ≤ p.woken + 1))
    → IsAwake (get_task p)
get_task-IsAwake p a = elim (get_task-cases p) [
  | waits l r e ↦ subst IsAwake (sym e) (inr (r, rw l (omega arith)))
  | gives_up l r e ↦ subst IsAwake (sym e) (stopped r a)
  | takes task rest l e ↦ subst IsAwake (sym e) (took task rest l a)
]
  where
    clash : true ≢ false
    clash h = cc h

    stopped :
        p.running ≡ false
        → (p.sleeping ≡ 0) ⊎ ((p.running ≡ true) × (length p.task_list ≤ p.woken + 1))
        → IsAwake (record p { at_loop = p.at_loop + 1 })
    stopped r (inl z) = inl z
    stopped r (inr (y, h)) = absurd (clash (sym y ∙ r))

    took :
        (task : ℕ) (rest : List ℕ)
        → p.task_list ≡ task ∷ rest
        → (p.sleeping ≡ 0) ⊎ ((p.running ≡ true) × (length p.task_list ≤ p.woken + 1))
        → IsAwake
            (record p { task_list = rest; busy = p.busy + 1; started = p.started ++ (task ∷ []) })
    took task rest l (inl z) = inl z
    took task rest l (inr (y, h)) = inr (y, omega (arith, ap length l))

Step-IsAwake :
    {p q : ThreadPool} {submitted more : List ℕ} → Step p submitted q more → IsAwake p → IsAwake q
Step-IsAwake {p} (submit task) a = run-IsAwake task p a
Step-IsAwake shut_down a = inl refl
Step-IsAwake (stay k e r) a = a
Step-IsAwake (leave k e r) a = a
Step-IsAwake {p} (fetch k e) (inl z) = get_task-IsAwake (record p { fetching = k }) (inl z)
Step-IsAwake {p} (fetch k e) (inr (y, h)) =
    get_task-IsAwake (record p { fetching = k }) (inr (y, omega arith))
Step-IsAwake {p} (refetch k e) (inl z) = get_task-IsAwake (record p { woken = k }) (inl z)
Step-IsAwake {p} (refetch k e) (inr (y, h)) =
    get_task-IsAwake (record p { woken = k }) (inr (y, omega arith))
Step-IsAwake (spurious k e) (inl z) = absurd (omega arith)
Step-IsAwake (spurious k e) (inr (y, h)) = inr (y, omega arith)
Step-IsAwake (return_task k e) a = a

-- In every reachable state of the pool, no thread sleeps in `wait`, or the pool runs and for every task
-- that waits a thread has been woken that has not had the lock yet: no notification is lost, and after
-- `stop` every thread can be joined.
pub Reach-IsAwake : {n : ℕ} {p : ThreadPool} {submitted : List ℕ} → Reach n p submitted → IsAwake p
Reach-IsAwake here = inl refl
Reach-IsAwake (next r st) = Step-IsAwake st (Reach-IsAwake r)
