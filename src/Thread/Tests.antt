-- ===== src/Thread/Tests.antt =====
-- A thread that starts at the second attempt.
use websocket_cpp.Base.{◌≡◌, refl, [], ◌∷◌, true, false, err, aborted}
use websocket_cpp.Thread.{new_thread}
use websocket_cpp.Thread.Calls.{start_call, join_call, run, life, run-eq-life}

run-eq-life_example :
    run (start_call false ∷ start_call true ∷ join_call ∷ []) new_thread
    ≡ life (start_call false ∷ start_call true ∷ join_call ∷ [])
run-eq-life_example = run-eq-life (start_call false ∷ start_call true ∷ join_call ∷ [])

joined_twice : run (start_call true ∷ join_call ∷ join_call ∷ []) new_thread ≡ err aborted
unfolding run
joined_twice = refl
