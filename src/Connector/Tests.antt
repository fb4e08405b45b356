-- ===== src/Connector/Tests.antt =====
-- A connector on concrete answers of the system.
use websocket_cpp.Base.{◌≤◌, ◌≡◌, refl, List, [], ◌∷◌, flatten, map, some, ok, err, aborted}
use websocket_cpp.Connector.{
  Connector, connected, new_connector, Effect, close_fd, new_handler, delete_handler,
  new_connection, start_in_loop, connect, connect_impl, retry, handle_write, reset_event,
}
use websocket_cpp.Connector.Runs.{
  Event, start, write_ready, step, run, handed, HasStart, once_connected,
}
use websocket_cpp.Connector.Attempts.{
  Attempt, refused, abandoned, broken, events, effects, failed_attempts,
}

-- Refused at once, then in progress and connected.
abbrev succeeding : List Event
succeeding = start 5 111 ∷ start 6 115 ∷ write_ready 0 ∷ []

abbrev succeeded : Connector
succeeded = record new_connector { state = connected }

abbrev succeeding_effects : List Effect
succeeding_effects = close_fd 5 ∷ new_handler 6 ∷ delete_handler 6 ∷ new_connection 6 ∷ []

run-succeeding : run succeeding new_connector ≡ ok (succeeding_effects, succeeded)
unfolding run step start_in_loop connect connect_impl retry handle_write reset_event
run-succeeding = refl

-- A second `start` while the first socket waits: the socket 6 is neither kept nor closed.
pending_start :
    run (start 5 115 ∷ start 6 115 ∷ []) new_connector
    ≡ ok (new_handler 5 ∷ [], record new_connector { event = some 5 })
unfolding run step start_in_loop connect connect_impl
pending_start = refl

once_connected_example :
    (handed succeeding_effects ≤ 1)
    × (handed succeeding_effects ≡ 1
        → (fs : List Event) → HasStart fs
        → run fs succeeded ≡ err aborted)
once_connected_example = once_connected succeeding succeeding_effects succeeded run-succeeding

abbrev failing : List Attempt
failing = refused 5 111 refl refl ∷ abandoned 7 101 refl refl ∷ broken 6 115 110 refl refl ∷ []

failed_attempts_example :
    run (flatten (map events failing)) new_connector
    ≡ ok (flatten (map effects failing), new_connector)
failed_attempts_example = failed_attempts failing
