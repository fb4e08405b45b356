-- ===== src/NetConnection/Tests.antt =====
-- Connections at concrete values.
use websocket_cpp.Base.{
  ◌≡◌, refl, List, [], ◌∷◌, ◌++◌, replicate, none, some, ok, err, faulted, arith, true,
}
use websocket_cpp.Buffer.{Buffer, readable_bytes}
use websocket_cpp.Buffer.Contents.{IsValid}
use websocket_cpp.Poller.{EventHandler, hand_event}
use websocket_cpp.NetConnection.{
  NetConnection, connected, wrote, Effect, handle_error, send, send_connected, send_in_reactor,
  call_back, call_backs, on_callback, handle_event,
}
use websocket_cpp.NetConnection.Sending.{wired}
use websocket_cpp.NetConnection.Draining.{drain, send_then_drain}
use websocket_cpp.NetConnection.Runs.{event, call_send, perform, run, stranded}
use websocket_cpp.NetConnection.Closing.{peer_close_faults}

abbrev empty_buffer : Buffer
empty_buffer = record { mem = replicate 16 7; size = 0; read_pos = 8; write_pos = 8 }

abbrev half_full : Buffer
half_full = record { mem = replicate 16 7; size = 0; read_pos = 8; write_pos = 11 }

abbrev reader : EventHandler
reader = record { fd = 5; events = 3 }

abbrev idle : NetConnection
idle = record {
  state = connected;
  event = some reader;
  read_buffer = empty_buffer;
  write_buffer = empty_buffer;
}

abbrev busy : NetConnection
busy = record idle { write_buffer = half_full }

empty_buffer-IsValid : IsValid empty_buffer
unfolding replicate
empty_buffer-IsValid = omega arith

send_then_drain_example :
    (es more : List Effect) × (d e : NetConnection) × (send_in_reactor 7
        (wrote 2)
        idle
        (1 ∷ 2 ∷ 3 ∷ 4 ∷ 5 ∷ [])
      ≡ ok (es, d))
    × (drain (1 ∷ 2 ∷ []) d ≡ ok (more, e))
    × (wired (es ++ more) ≡ 1 ∷ 2 ∷ 3 ∷ 4 ∷ 5 ∷ [])
    × (readable_bytes e.write_buffer ≡ 0)
send_then_drain_example =
    send_then_drain 7 2 (1 ∷ 2 ∷ []) idle reader (1 ∷ 2 ∷ 3 ∷ 4 ∷ 5 ∷ []) refl
      (record { held = refl; flags = omega arith })
      (record { valid = empty_buffer-IsValid; empty = refl; settled = refl }) (omega arith)
      (omega arith, omega arith, (omega arith, omega arith, refl))

-- The socket becomes writeable, and two more bytes are sent.
busy-run : run 7 (event 4 none ∷ call_send true (wrote 2) (1 ∷ 2 ∷ []) ∷ []) busy ≡ ok ([], busy)
unfolding run perform handle_event call_backs call_back on_callback handle_error send
    send_in_reactor send_connected hand_event
busy-run = refl

stranded_example : (wired [] ≡ []) × (busy.write_buffer ≡ busy.write_buffer)
stranded_example =
    stranded 7 (event 4 none ∷ call_send true (wrote 2) (1 ∷ 2 ∷ []) ∷ []) busy busy []
      (omega arith) busy-run

peer_close_faults_example : handle_event 7 1 (some []) idle ≡ err faulted
unfolding hand_event
peer_close_faults_example = peer_close_faults 7 1 [] idle reader refl empty_buffer-IsValid refl
