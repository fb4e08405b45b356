-- ===== src/Reactor/Order.antt =====
-- The functions are called once each, in the order in which they were pushed.
use websocket_cpp.Base.{
  ℕ, ◌≡◌, refl, ap, sym, subst, ◌∙◌, List, [], ◌∷◌, ◌++◌, append-nil, append_assoc, Bool, true,
  false, if◌then◌else◌,
}
use websocket_cpp.Reactor.{
  Reactor, push_functor, eventfd_write, wake, queue_in_loop, call_functor, set_quit,
}
use websocket_cpp.Reactor.Steps.{
  Phase, at_head, polling, handling, running_tasks, exited, System, Step, other_push, other_wake,
  other_quit, enter, leave, poll_wakeup, poll_other, handler_push, skip, take, call, task_push,
  finish, Reach, here, next,
}

-- The write of the eventfd changes nothing else.
pub record SameTasks (r q : Reactor) : Type 0 where
  pub same_list : q.functor_list ≡ r.functor_list
  pub same_running : q.running ≡ r.running
  pub same_flag : q.task_running ≡ r.task_running
  pub same_done : q.done ≡ r.done
  pub same_quit : q.quit ≡ r.quit

pub wake-SameTasks : (in_loop : Bool) (r : Reactor) → SameTasks r (wake in_loop r)
wake-SameTasks true r = go r.task_running
  where
    go : (b : Bool) → SameTasks r (if b then eventfd_write r else r)
    go true = record {
      same_list = refl;
      same_running = refl;
      same_flag = refl;
      same_done = refl;
      same_quit = refl;
    }
    go false = record {
      same_list = refl;
      same_running = refl;
      same_flag = refl;
      same_done = refl;
      same_quit = refl;
    }
wake-SameTasks false r = go r.task_running
  where
    go : (b : Bool) → SameTasks r (if b then eventfd_write (eventfd_write r) else eventfd_write r)
    go true = record {
      same_list = refl;
      same_running = refl;
      same_flag = refl;
      same_done = refl;
      same_quit = refl;
    }
    go false = record {
      same_list = refl;
      same_running = refl;
      same_flag = refl;
      same_done = refl;
      same_quit = refl;
    }

-- Outside `runningTask` its local vector is empty, and `btaskRunning_` is set exactly within it.
abbrev pub Tidy : Phase → Reactor → Type 0
Tidy at_head r = (r.running ≡ []) × (r.task_running ≡ false)
Tidy polling r = (r.running ≡ []) × (r.task_running ≡ false)
Tidy handling r = (r.running ≡ []) × (r.task_running ≡ false)
Tidy running_tasks r = r.task_running ≡ true
Tidy exited r = (r.running ≡ []) × (r.task_running ≡ false)

Tidy-same :
    (p : Phase) (r q : Reactor)
    → q.running ≡ r.running
    → q.task_running ≡ r.task_running
    → Tidy p r
    → Tidy p q
Tidy-same at_head r q a b (x, y) = (a ∙ x, b ∙ y)
Tidy-same polling r q a b (x, y) = (a ∙ x, b ∙ y)
Tidy-same handling r q a b (x, y) = (a ∙ x, b ∙ y)
Tidy-same running_tasks r q a b x = b ∙ x
Tidy-same exited r q a b (x, y) = (a ∙ x, b ∙ y)

Tidy-wake : (p : Phase) (in_loop : Bool) (r : Reactor) → Tidy p r → Tidy p (wake in_loop r)
Tidy-wake p in_loop r t =
    let w = wake-SameTasks in_loop r in Tidy-same p r (wake in_loop r) w.same_running w.same_flag t

at_phase : (p q : Phase) (r : Reactor) → p ≡ q → Tidy p r → Tidy q r
at_phase p q r e t = subst (λ k. Tidy k r) e t

Step-Tidy : {s t : System} → Step s t → Tidy s.phase s.reactor → Tidy t.phase t.reactor
Step-Tidy {s} (other_push f) i = Tidy-same s.phase s.reactor (push_functor f s.reactor) refl refl i
Step-Tidy {s} (other_wake n e) i = Tidy-wake s.phase false s.reactor i
Step-Tidy {s} other_quit i = Tidy-same s.phase s.reactor (set_quit s.reactor) refl refl i
Step-Tidy {s} (enter e q) i = at_phase s.phase at_head s.reactor e i
Step-Tidy {s} (leave e q) i = at_phase s.phase at_head s.reactor e i
Step-Tidy {s} (poll_wakeup e w) i = at_phase s.phase polling s.reactor e i
Step-Tidy {s} (poll_other e) i = at_phase s.phase polling s.reactor e i
Step-Tidy {s} (handler_push f e) i =
    Tidy-wake s.phase true (push_functor f s.reactor)
      (Tidy-same s.phase s.reactor (push_functor f s.reactor) refl refl i)
Step-Tidy {s} (skip e n) i = at_phase s.phase handling s.reactor e i
Step-Tidy (take e n) i = refl
Step-Tidy {s} (call f rest e c) i =
    at_phase running_tasks s.phase (call_functor f rest s.reactor) (sym e)
      (at_phase s.phase running_tasks s.reactor e i)
Step-Tidy {s} (task_push f e) i =
    Tidy-wake s.phase true (push_functor f s.reactor)
      (Tidy-same s.phase s.reactor (push_functor f s.reactor) refl refl i)
Step-Tidy (finish e n) i = (n, refl)

pub Reach-Tidy : {s : System} → Reach s → Tidy s.phase s.reactor
Reach-Tidy here = (refl, refl)
Reach-Tidy (next r st) = Step-Tidy st (Reach-Tidy r)

-- The contract: a queue of functions, and those that were called.
pub record Queue : Type 0 where
  pub waiting : List ℕ
  pub called : List ℕ

-- What a step does to the queue: nothing, it adds a function, or it calls one.
pub data Label : Type 0 where
  silent : Label
  adds calls : (f : ℕ) → Label

abbrev pub Refines : Label → Queue → Queue → Type 0
Refines silent q r = r ≡ q
Refines (adds f) q r = r ≡ record q { waiting = q.waiting ++ (f ∷ []) }
Refines (calls f) q r = (q.waiting ≡ f ∷ r.waiting) × (r.called ≡ q.called ++ (f ∷ []))

-- Which step does what: the pushes of any thread add, and the calls of `runningTask` call.
abbrev pub label : {s t : System} → Step s t → Label
label (other_push f) = adds f
label (other_wake n e) = silent
label other_quit = silent
label (enter e q) = silent
label (leave e q) = silent
label (poll_wakeup e w) = silent
label (poll_other e) = silent
label (handler_push f e) = adds f
label (skip e n) = silent
label (take e n) = silent
label (call f rest e c) = calls f
label (task_push f e) = adds f
label (finish e n) = silent

-- How a reactor stands for a queue.
abbrev pub queue_of : Reactor → Queue
queue_of r = record { waiting = r.running ++ r.functor_list; called = r.done }

queue-SameTasks : (r q : Reactor) → SameTasks r q → queue_of q ≡ queue_of r
queue-SameTasks r q w = rw (w.same_list, w.same_running, w.same_done) refl

push-queue :
    (f : ℕ) (r : Reactor)
    → queue_of (push_functor f r)
      ≡ record { waiting = (r.running ++ r.functor_list) ++ (f ∷ []); called = r.done }
push-queue f r =
    ap {A = List ℕ} (λ l. record { waiting = l; called = r.done })
      (sym (append_assoc r.running r.functor_list (f ∷ [])))

-- Every step of the reachable system is the step of a queue that its label says: `queueInLoop`, from
-- another thread, from a handler or from a function that is running, puts its function at the end of what
-- waits and changes nothing else; a call of `runningTask` is the call of the first function that waits;
-- and every other step, the swap and the end of `runningTask` with it, leaves the queue as it is.
pub Step-Refines :
    {s t : System}
    → Reach s
    → (st : Step s t) → Refines (label st) (queue_of s.reactor) (queue_of t.reactor)
Step-Refines {s} r (other_push f) = push-queue f s.reactor
Step-Refines {s} r (other_wake n e) =
    queue-SameTasks s.reactor (wake false s.reactor) (wake-SameTasks false s.reactor)
Step-Refines r other_quit = refl
Step-Refines r (enter e q) = refl
Step-Refines r (leave e q) = refl
Step-Refines r (poll_wakeup e w) = refl
Step-Refines r (poll_other e) = refl
Step-Refines {s} r (handler_push f e) =
    queue-SameTasks (push_functor f s.reactor) (queue_in_loop f s.reactor)
      (wake-SameTasks true (push_functor f s.reactor))
    ∙ push-queue f s.reactor
Step-Refines r (skip e n) = refl
Step-Refines {s} r (take e n) =
    let empty : s.reactor.running ≡ [] = (at_phase s.phase handling s.reactor e (Reach-Tidy r)).0 in
    ap {A = List ℕ} (λ l. record { waiting = l; called = s.reactor.done })
      (append-nil s.reactor.functor_list ∙ ap (λ l. l ++ s.reactor.functor_list) (sym empty))
Step-Refines {s} r (call f rest e c) = (ap (λ l. l ++ s.reactor.functor_list) c, refl)
Step-Refines {s} r (task_push f e) =
    queue-SameTasks (push_functor f s.reactor) (queue_in_loop f s.reactor)
      (wake-SameTasks true (push_functor f s.reactor))
    ∙ push-queue f s.reactor
Step-Refines r (finish e n) = refl

-- What was called, and then what waits, is the history of the pushes.
abbrev pub IsOrdered : System → Type 0
IsOrdered s = s.reactor.done ++ (s.reactor.running ++ s.reactor.functor_list) ≡ s.queued

-- All of a queue, in order
abbrev all_of : Queue → List ℕ
all_of q = q.called ++ q.waiting

ordered-push :
    (q r : Queue) (f : ℕ) (queued : List ℕ)
    → r ≡ record q { waiting = q.waiting ++ (f ∷ []) }
    → all_of q ≡ queued
    → all_of r ≡ queued ++ (f ∷ [])
ordered-push q r f queued e h =
    ap all_of e ∙ sym (append_assoc q.called q.waiting (f ∷ [])) ∙ ap (λ l. l ++ (f ∷ [])) h

Step-IsOrdered : {s t : System} → Reach s → Step s t → IsOrdered s → IsOrdered t
Step-IsOrdered {s} r (other_push f) h =
    ordered-push (queue_of s.reactor) (queue_of (push_functor f s.reactor)) f s.queued
      (push-queue f s.reactor) h
Step-IsOrdered {s} r (other_wake n e) h =
    ap all_of (queue-SameTasks s.reactor (wake false s.reactor) (wake-SameTasks false s.reactor))
    ∙ h
Step-IsOrdered r other_quit h = h
Step-IsOrdered r (enter e q) h = h
Step-IsOrdered r (leave e q) h = h
Step-IsOrdered r (poll_wakeup e w) h = h
Step-IsOrdered r (poll_other e) h = h
Step-IsOrdered {s} r (handler_push f e) h =
    ap all_of (
      queue-SameTasks (push_functor f s.reactor) (queue_in_loop f s.reactor)
        (wake-SameTasks true (push_functor f s.reactor)))
    ∙ ordered-push (queue_of s.reactor) (queue_of (push_functor f s.reactor)) f s.queued
        (push-queue f s.reactor) h
Step-IsOrdered r (skip e n) h = h
Step-IsOrdered {s} r (take e n) h =
    let empty : s.reactor.running ≡ [] = (at_phase s.phase handling s.reactor e (Reach-Tidy r)).0 in
    ap (λ l. s.reactor.done ++ l)
      (append-nil s.reactor.functor_list ∙ ap (λ l. l ++ s.reactor.functor_list) (sym empty))
    ∙ h
Step-IsOrdered {s} r (call f rest e c) h =
    append_assoc s.reactor.done (f ∷ []) (rest ++ s.reactor.functor_list)
    ∙ ap (λ l. s.reactor.done ++ (l ++ s.reactor.functor_list)) (sym c)
    ∙ h
Step-IsOrdered {s} r (task_push f e) h =
    ap all_of (
      queue-SameTasks (push_functor f s.reactor) (queue_in_loop f s.reactor)
        (wake-SameTasks true (push_functor f s.reactor)))
    ∙ ordered-push (queue_of s.reactor) (queue_of (push_functor f s.reactor)) f s.queued
        (push-queue f s.reactor) h
Step-IsOrdered r (finish e n) h = h

-- In every reachable state, what was called, and then what waits, is the history of the pushes: no
-- function is lost, called twice, or called before one that was pushed earlier.
pub Reach-IsOrdered : {s : System} → Reach s → IsOrdered s
Reach-IsOrdered here = refl
Reach-IsOrdered (next r st) = Step-IsOrdered r st (Reach-IsOrdered r)
