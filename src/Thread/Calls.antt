-- ===== src/Thread/Calls.antt =====
-- The calls that a thread takes between its constructor and its destructor.
use websocket_cpp.Base.{
  ◌≡◌, refl, List, [], ◌∷◌, Bool, true, false, Result, ok, err, aborted, ◌>>=◌,
}
use websocket_cpp.Thread.{Thread, new_thread, start, join, destroy}

pub data Call : Type 0 where
  start_call : (created : Bool) → Call
  join_call : Call

abbrev pub call : Call → Thread → Result Thread
call (start_call created) t = start created t
call join_call t = join t

-- One call after another, and the destructor
unfoldable pub run : List Call → Thread → Result Thread
run [] t = ok (destroy t)
run (c ∷ cs) t = do u ← call c t; run cs u

-- The lives that do not abort: any number of starts that fail, and then nothing, a start, or a start and a
-- join. None leaves a handle.
pub life : List Call → Result Thread
life [] = ok new_thread
life (start_call false ∷ cs) = life cs
life (start_call true ∷ []) = ok (record { started = true; joined = false; handles = 0 })
life (start_call true ∷ join_call ∷ []) = ok (record { started = true; joined = true; handles = 0 })
life (start_call true ∷ join_call ∷ c ∷ cs) = err aborted
life (start_call true ∷ start_call created ∷ cs) = err aborted
life (join_call ∷ cs) = err aborted

-- Whatever is called on a new thread before its destructor: either the calls are starts that fail, and then
-- nothing, a start that succeeds, or such a start and a join, and the destructor leaves no handle of
-- pthread that is neither joined nor detached; or the process aborts.
pub run-eq-life : (cs : List Call) → run cs new_thread ≡ life cs
unfolding run life
run-eq-life [] = refl
run-eq-life (start_call false ∷ cs) = run-eq-life cs
run-eq-life (start_call true ∷ []) = refl
run-eq-life (start_call true ∷ join_call ∷ []) = refl
run-eq-life (start_call true ∷ join_call ∷ start_call created ∷ cs) = refl
run-eq-life (start_call true ∷ join_call ∷ join_call ∷ cs) = refl
run-eq-life (start_call true ∷ start_call created ∷ cs) = refl
run-eq-life (join_call ∷ cs) = refl
