-- ===== src/ReactorThreadPool/Tests.antt =====
-- A pool of three reactors.
use websocket_cpp.Base.{◌≡◌, refl, [], ◌∷◌}
use websocket_cpp.ReactorThreadPool.{ReactorThreadPool, new_pool, start}

abbrev three : ReactorThreadPool
three = record { base_loop = 9; loops = 4 ∷ 5 ∷ 6 ∷ []; index = 0 }

three_started : start (4 ∷ 5 ∷ 6 ∷ []) (new_pool 9) ≡ three
unfolding start
three_started = refl
