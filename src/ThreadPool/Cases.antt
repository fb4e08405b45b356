-- ===== src/ThreadPool/Cases.antt =====
-- What `notify` and `getTask` do, case by case.
use websocket_cpp.Base.{
  ℕ, ◌+◌, ◌-◌, ◌≡◌, refl, List, [], ◌∷◌, ◌++◌, Bool, true, false, Bool-cases, ltb, ltb→lt, arith,
  inl, inr,
}
use websocket_cpp.ThreadPool.{ThreadPool, notify, get_task}

pub data Got (p q : ThreadPool) : Type 0 where
  waits : p.task_list ≡ [] → p.running ≡ true → q ≡ record p { sleeping = p.sleeping + 1 } → Got p q
  gives_up :
      p.task_list ≡ [] → p.running ≡ false → q ≡ record p { at_loop = p.at_loop + 1 } → Got p q
  takes :
      (task : ℕ) (rest : List ℕ)
      → p.task_list ≡ task ∷ rest
      → q ≡ record p { task_list = rest; busy = p.busy + 1; started = p.started ++ (task ∷ []) }
      → Got p q

pub get_task-cases : (p : ThreadPool) → Got p (get_task p)
get_task-cases p =
    go p.running p.task_list p.at_loop p.fetching p.sleeping p.woken p.exited p.busy p.started
  where
    go :
        (r : Bool) (l : List ℕ) (a f s w x b : ℕ) (st : List ℕ)
        → let p : ThreadPool = record {
          running = r;
          task_list = l;
          at_loop = a;
          fetching = f;
          sleeping = s;
          woken = w;
          exited = x;
          busy = b;
          started = st;
        } in
          Got p (get_task p)
    go true [] a f s w x b st = waits refl refl refl
    go false [] a f s w x b st = gives_up refl refl refl
    go r (task ∷ rest) a f s w x b st = takes task rest refl refl

pub data Notified (p q : ThreadPool) : Type 0 where
  nobody : p.sleeping ≡ 0 → q ≡ p → Notified p q
  somebody :
      (n : ℕ)
      → p.sleeping ≡ n + 1
      → q ≡ record p { sleeping = n; woken = p.woken + 1 }
      → Notified p q

pub notify-cases : (p : ThreadPool) → Notified p (notify p)
notify-cases p = elim (Bool-cases (ltb 0 p.sleeping)) [
  | inl y ↦ let pos = ltb→lt 0 p.sleeping y in somebody (p.sleeping - 1) (omega arith) (rw y refl)
  | inr n ↦ nobody (ground arith) (rw n refl)
]
