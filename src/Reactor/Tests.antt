-- ===== src/Reactor/Tests.antt =====
-- A run of the loop: another thread pushes function 5 while the loop sleeps.
use websocket_cpp.Base.{◌+◌, ◌<◌, ◌≡◌, inl, refl, [], ◌∷◌, ◌++◌}
use websocket_cpp.Reactor.{push_functor}
use websocket_cpp.Reactor.Steps.{System, start, other_push, enter, polling, Reach, here, next}
use websocket_cpp.Reactor.Order.{IsOrdered, queue_of, Step-Refines, Reach-IsOrdered}
use websocket_cpp.Reactor.Wakeup.{no_lost_wakeup}

abbrev sleeping : System
sleeping = record start { phase = polling }

abbrev pushed : System
pushed = record sleeping { reactor = push_functor 5 start.reactor; pending = 1; queued = 5 ∷ [] }

Reach-sleeping : Reach sleeping
Reach-sleeping = next here (enter refl refl)

Reach-pushed : Reach pushed
Reach-pushed = next Reach-sleeping (other_push 5)

no_lost_wakeup_example : 0 < pushed.reactor.wakeups + pushed.pending
no_lost_wakeup_example = no_lost_wakeup Reach-pushed refl (inl (λ e. cc e))

Step-Refines_example : queue_of pushed.reactor ≡ record (queue_of sleeping.reactor) {
  waiting = (queue_of sleeping.reactor).waiting ++ (5 ∷ []);
}
Step-Refines_example = Step-Refines Reach-sleeping (other_push 5)

Reach-IsOrdered_example : IsOrdered pushed
Reach-IsOrdered_example = Reach-IsOrdered Reach-pushed
