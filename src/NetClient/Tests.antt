-- ===== src/NetClient/Tests.antt =====
-- A client that connects and hears nothing.
use websocket_cpp.Base.{◌≡◌, refl, List, [], ◌∷◌, true, some, ok, err, aborted}
use websocket_cpp.Protocol.Head.{WsHead}
use websocket_cpp.Protocol.Decode.{WsProtocol}
use websocket_cpp.Heartbeat.{send, wait_pong, heart_timer, next_timestamp}
use websocket_cpp.Heartbeat.Sender.{ping_bytes, start_lem}
use websocket_cpp.Connector.{
  new_connector, connected, start_in_loop, connect, connect_impl, handle_write, reset_event, retry,
}
use websocket_cpp.Connector.Runs
use websocket_cpp.WsNet.{on_connected, start_heartbeat}
use websocket_cpp.NetClient.{
  Client, new_client, act, Event, connects, loop_start, write_ready, timer, step, run, start_queued,
  establish_all, establish, establish_connection,
}
use websocket_cpp.NetClient.Reconnect.{silent_peer_aborts}

abbrev zeros : WsHead
zeros = record { payload_len = 0; mask = 0; opcode = 0; rsv = 0; fin = 0 }

abbrev proto : WsProtocol
proto = record { frame_buff = []; frame_pos = 0 }

abbrev connecting : List Event
connecting = connects ∷ loop_start 5 115 ∷ write_ready 0 2000 ∷ []

-- The client after that: the heartbeat was started.
abbrev beating : Client
beating = record {
  net = record {
    connector = record new_connector { state = connected };
    conn = some 5;
    conn_index = 2;
  };
  ws = record {
    proto = proto;
    heart = wait_pong;
    connected = true;
    timers = heart_timer wait_pong (next_timestamp wait_pong 2000) ∷ [];
  };
  starts = 0;
}

run-connecting :
    run zeros connecting (new_client proto) ≡ ok (act (send (ping_bytes zeros)) ∷ [], beating)
unfolding run step start_queued establish_all establish establish_connection on_connected Runs.step
    start_heartbeat start_in_loop connect connect_impl handle_write reset_event retry
run-connecting = rw (run, start_lem zeros 2000) refl

silent_peer_aborts_example : run zeros (timer ∷ timer ∷ loop_start 6 115 ∷ []) beating ≡ err aborted
silent_peer_aborts_example =
    silent_peer_aborts zeros proto connecting (act (send (ping_bytes zeros)) ∷ []) beating 5 6 115
      run-connecting refl
