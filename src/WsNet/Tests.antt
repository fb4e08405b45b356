-- ===== src/WsNet/Tests.antt =====
-- The client at concrete values.
use websocket_cpp.Base.{
  ℕ, List, ◌++◌, Option, none, some, ok, decimal, arith, ◌≡◌, refl, [], ◌∷◌, false, if◌then◌else◌,
  replicate, take, drop,
}
use websocket_cpp.SocketOpts.{host_to_network16}
use websocket_cpp.WsNet.Url.{new_ws_net}
use websocket_cpp.WsNet.Url.Address.{new_ws_net_lem}
use websocket_cpp.Heartbeat.{same_bytes, reconnect, pong_text}
use websocket_cpp.Protocol.Head.{WsHead}
use websocket_cpp.Protocol.Decode.{decode_frame}
use websocket_cpp.WsNet.{WsNet, dec_frame_callback, dec_frame_callbacks, on_conn_message}

abbrev junk_head : WsHead
junk_head = record { fin = 0; rsv = 5; opcode = 9; mask = 0; payload_len = 77 }

abbrev lost_peer : WsNet
lost_peer = record {
  proto = record { frame_buff = replicate 8 7; frame_pos = 0 };
  heart = reconnect;
  connected = false;
  timers = [];
}

-- A text message "PONG", not masked, is taken for the answer to a ping.
text_pong : (on_conn_message 9 lost_peer (17 ∷ 8 ∷ 0 ∷ 0 ∷ 0 ∷ 0 ∷ pong_text)).0 ≡ []
unfolding on_conn_message decode_frame dec_frame_callbacks dec_frame_callback drop take
text_pong = refl

-- "10.0.0.1" is the only address that is known.
abbrev host : List ℕ
host = 49 ∷ 48 ∷ 46 ∷ 48 ∷ 46 ∷ 48 ∷ 46 ∷ 49 ∷ []

abbrev only_host : List ℕ → Option ℕ
only_host ip = if same_bytes ip host then some 16777226 else none

abbrev scheme : List ℕ
scheme = 119 ∷ 115 ∷ 58 ∷ []

-- "ws://10.0.0.1:9001/a"
new_ws_net_example :
    new_ws_net only_host (scheme ++ (47 ∷ 47 ∷ ((host ++ (58 ∷ decimal 9001)) ++ (47 ∷ 97 ∷ []))))
    ≡ ok (some (record { sin_addr = 16777226; sin_port = host_to_network16 9001 }))
new_ws_net_example =
    new_ws_net_lem only_host scheme host (47 ∷ 97 ∷ []) 9001 16777226 (refl, (refl, (refl, tt)))
      (refl, (refl, (refl, (refl, (refl, (refl, (refl, (refl, tt))))))))
      (refl, (refl, (refl, (refl, (refl, (refl, (refl, (refl, tt))))))))
      (refl, (refl, (refl, (refl, (refl, (refl, (refl, (refl, tt)))))))) refl (omega arith) refl
