-- ===== src/NetServer/Tests.antt =====
-- Two connections of one peer, the first of which is removed after the second was accepted.
use websocket_cpp.Base.{◌≡◌, refl, List, [], ◌∷◌, none, some, inr, ok, arith}
use websocket_cpp.Utility.Fields.{Without}
use websocket_cpp.ReactorThreadPool.{ReactorThreadPool}
use websocket_cpp.NetServer.{Peer, NetServer, new_net_server, conn_id, getconn}
use websocket_cpp.NetServer.History.{Event, accepts, removes, asks, run, known, getconn-run}

abbrev pool : ReactorThreadPool
pool = record { base_loop = 9; loops = 4 ∷ 5 ∷ []; index = 1 }

-- "1.1" and "1.2"
abbrev one : Peer
one = record { ip = 49 ∷ 46 ∷ 49 ∷ []; port = 80 }

abbrev two : Peer
two = record { ip = 49 ∷ 46 ∷ 50 ∷ []; port = 80 }

abbrev history : List Event
history = accepts one 1 ∷ accepts two 2 ∷ accepts one 3 ∷ asks two ∷ removes one ∷ []

-- The connection 3 is open, and not found.
history_of_one : known one history none ≡ none
history_of_one = refl

history_of_two : known two history none ≡ some 2
history_of_two = refl

getconn-run_example :
    (s : NetServer) × (run history (new_net_server pool) ≡ ok s)
    × ((p : Peer) → Without 35 p.ip → (getconn (conn_id p 0) s).0 ≡ known p history none)
getconn-run_example =
    getconn-run history pool (record { ready = inr (omega arith) })
      (plain_one, (plain_two, (plain_one, (plain_two, (plain_one, tt)))))
  where
    plain_one : Without 35 one.ip
    plain_one = (refl, (refl, (refl, tt)))

    plain_two : Without 35 two.ip
    plain_two = (refl, (refl, (refl, tt)))
