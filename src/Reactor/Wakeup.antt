-- ===== src/Reactor/Wakeup.antt =====
-- The loop does not sleep in `poll` while there is something to do.
use websocket_cpp.Base.{
  ◌+◌, ◌<◌, ◌≡◌, ◌≢◌, refl, sym, subst, ◌∙◌, [], ◌∷◌, ◌++◌, true, false, Bool-cases, ◌⊎◌, inl, inr,
  arith,
}
use websocket_cpp.Reactor.{Reactor, wake, queue_in_loop, call_functor}
use websocket_cpp.Reactor.Steps.{
  Phase, at_head, polling, handling, running_tasks, exited, System, Step, other_push, other_wake,
  other_quit, enter, leave, poll_wakeup, poll_other, handler_push, skip, take, call, task_push,
  finish, Reach, here, next,
}
use websocket_cpp.Reactor.Order.{Tidy, Reach-Tidy}

-- The eventfd is written, or another thread is about to write it.
abbrev pub IsAwake : System → Type 0
IsAwake s = 0 < s.reactor.wakeups + s.pending

-- In `poll`, and where it may come next without a look at the queue, a function in the queue or a set
-- `bquit_` keeps the loop awake.
abbrev pub Watches : Phase → System → Type 0
Watches at_head s = s.reactor.functor_list ≢ [] → IsAwake s
Watches polling s = (s.reactor.functor_list ≢ [] → IsAwake s) × (s.reactor.quit ≡ true → IsAwake s)
Watches handling s = Unit
Watches running_tasks s = s.reactor.functor_list ≢ [] → IsAwake s
Watches exited s = Unit

Watches-awake : (p : Phase) (s : System) → IsAwake s → Watches p s
Watches-awake at_head s a = λ n. a
Watches-awake polling s a = ((λ n. a), (λ q. a))
Watches-awake handling s a = tt
Watches-awake running_tasks s a = λ n. a
Watches-awake exited s a = tt

wake_wakes : (r : Reactor) → 0 < (wake false r).wakeups
wake_wakes r = elim (Bool-cases r.task_running) [
  | inl y ↦ rw y (omega arith)
  | inr n ↦ rw n (omega arith)
]

at_phase : (p q : Phase) (s : System) → p ≡ q → Watches p s → Watches q s
at_phase p q s e w = subst (λ k. Watches k s) e w

Step-Watches : {s t : System} → Reach s → Step s t → Watches s.phase s → Watches t.phase t
Step-Watches {s} r (other_push f) w = Watches-awake s.phase _ (omega arith)
Step-Watches {s} r (other_wake n e) w =
    Watches-awake s.phase _ (omega (arith, wake_wakes s.reactor))
Step-Watches {s} r other_quit w = Watches-awake s.phase _ (omega arith)
Step-Watches {s} r (enter e q) w =
    (at_phase s.phase at_head s e w, (λ y. absurd (clash (sym y ∙ q))))
  where
    clash : true ≢ false
    clash h = cc h
Step-Watches r (leave e q) w = tt
Step-Watches r (poll_wakeup e p) w = tt
Step-Watches r (poll_other e) w = tt
Step-Watches {s} r (handler_push f e) w =
    subst
      (λ k.
        Watches k (record s { reactor = queue_in_loop f s.reactor; queued = s.queued ++ (f ∷ []) }))
      (sym e) tt
Step-Watches r (skip e n) w = λ m. absurd (m n)
Step-Watches r (take e n) w = λ m. absurd (m refl)
Step-Watches {s} r (call f rest e c) w =
    subst (λ k. Watches k (record s { reactor = call_functor f rest s.reactor })) (sym e)
      (at_phase s.phase running_tasks s e w)
Step-Watches {s} r (task_push f e) w =
    let flag : s.reactor.task_running ≡ true = subst (λ k. Tidy k s.reactor) e (Reach-Tidy r) in
    Watches-awake s.phase _ (rw flag (omega arith))
Step-Watches {s} r (finish e n) w = at_phase s.phase running_tasks s e w

Reach-Watches : {s : System} → Reach s → Watches s.phase s
Reach-Watches here = λ m. absurd (m refl)
Reach-Watches (next r st) = Step-Watches r st (Reach-Watches r)

-- No wakeup is lost: whenever the loop is in `poll` while a function waits in the queue, or after `quit`
-- has set its flag, the eventfd is written or about to be written, whatever the order of the steps of all
-- threads.
pub no_lost_wakeup :
    {s : System}
    → Reach s
    → s.phase ≡ polling
    → (s.reactor.functor_list ≢ []) ⊎ (s.reactor.quit ≡ true)
    → 0 < s.reactor.wakeups + s.pending
no_lost_wakeup {s} r e (inl n) = (at_phase s.phase polling s e (Reach-Watches r)).0 n
no_lost_wakeup {s} r e (inr q) = (at_phase s.phase polling s e (Reach-Watches r)).1 q
