-- ===== src/ThreadPool/Tests.antt =====
-- A pool of one thread that gets a task.
use websocket_cpp.Base.{refl, [], ◌∷◌}
use websocket_cpp.ThreadPool.{ThreadPool, start_pool, run, get_task}
use websocket_cpp.ThreadPool.Steps.{submit, stay, fetch, Reach, here, next}
use websocket_cpp.ThreadPool.Once.{IsWhole, Reach-IsWhole}
use websocket_cpp.ThreadPool.Awake.{IsAwake, Reach-IsAwake}

-- The thread waits, and is woken by a call of `run`.
abbrev asleep : ThreadPool
asleep = get_task (record (start_pool 1) { at_loop = 0; fetching = 0 })

abbrev given : ThreadPool
given = run 5 asleep

Reach-given : Reach 1 given (5 ∷ [])
Reach-given = next (next (next here (stay 0 refl refl)) (fetch 0 refl)) (submit 5)

Reach-IsWhole_example : IsWhole 1 given (5 ∷ [])
Reach-IsWhole_example = Reach-IsWhole Reach-given

Reach-IsAwake_example : IsAwake given
Reach-IsAwake_example = Reach-IsAwake Reach-given
