-- ===== src/Heartbeat/Tests.antt =====
-- Heartbeats at concrete values.
use websocket_cpp.Base.{
  ℕ, suc, ◌≡◌, List, [], ◌∷◌, map, ok, err, faulted, if◌then◌else◌, length, replicate, arith,
}
use websocket_cpp.Heartbeat.{
  HeartState, wait_ping, Action, send, ConnHeart, send_heartbeat, process_ping, timer_callback,
  is_stale, ping_text, pong_text,
}
use websocket_cpp.Heartbeat.Sender.{fires, pong, run, IsBounded, run_lem}
use websocket_cpp.Heartbeat.Receiver.{stale, fresh, timer_callback_lem}
use websocket_cpp.Heartbeat.Exchange.{heartbeat_exchange}
use websocket_cpp.Protocol.Head.{WsHead}
use websocket_cpp.Protocol.Decode.{WsProtocol, returned}
use websocket_cpp.Protocol.RoundTrip.{receive}

abbrev junk_head : WsHead
junk_head = record { fin = 0; rsv = 5; opcode = 9; mask = 0; payload_len = 77 }

abbrev small_proto : WsProtocol
small_proto = record { frame_buff = replicate 4 7; frame_pos = 0 }

-- Connection 2 was heard of 20 seconds ago.
abbrev two_conns : List ConnHeart
two_conns = record { conn = 1; seconds = 95 } ∷ record { conn = 2; seconds = 80 } ∷ []

abbrev at_100 : ℕ
at_100 = 100000000

run_example :
    (acts : List Action) × (t : HeartState) × (run junk_head wait_ping
        (fires ∷ pong ∷ fires ∷ fires ∷ [])
      ≡ ok (acts, t))
    × IsBounded wait_ping (fires ∷ pong ∷ fires ∷ fires ∷ []) acts
run_example = run_lem junk_head wait_ping (fires ∷ pong ∷ fires ∷ fires ∷ [])

timer_callback_example : timer_callback at_100 two_conns ≡ (
    if is_stale at_100 (record { conn = 1; seconds = 95 })
    then err faulted
    else ok (stale at_100 two_conns, fresh at_100 two_conns))
timer_callback_example =
    timer_callback_lem at_100 (record { conn = 1; seconds = 95 })
      (record { conn = 2; seconds = 80 } ∷ [])

-- Where the connection that has timed out is the first of the list.
front_faults : timer_callback at_100 (record { conn = 2; seconds = 80 } ∷ []) ≡ err faulted
front_faults = timer_callback_lem at_100 (record { conn = 2; seconds = 80 }) []

heartbeat_exchange_example :
    (pings : List (List ℕ)) × (pongs : List (List ℕ)) × (send_heartbeat junk_head
      ≡ ok (map send pings))
    × (receive (suc 0) small_proto pings
        ≡ record { proto = small_proto; calls = ping_text ∷ []; status = returned })
    × (process_ping junk_head ping_text (length ping_text) ≡ ok (map send pongs, 1))
    × (receive (suc 0) small_proto pongs
        ≡ record { proto = small_proto; calls = pong_text ∷ []; status = returned })
heartbeat_exchange_example =
    heartbeat_exchange 0 small_proto small_proto junk_head junk_head
      (record {
        fin_fits = omega arith;
        rsv_fits = omega arith;
        opcode_fits = omega arith;
        mask_fits = omega arith;
        len_fits = omega arith;
      })
      (record {
        fin_fits = omega arith;
        rsv_fits = omega arith;
        opcode_fits = omega arith;
        mask_fits = omega arith;
        len_fits = omega arith;
      })
