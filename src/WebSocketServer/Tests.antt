-- ===== src/WebSocketServer/Tests.antt =====
-- Both ways between a client and the server, at concrete values.
use websocket_cpp.Base.{
  ◌<◌, inr, length-replicate, zero, ℕ, suc, ◌≡◌, List, [], ◌∷◌, map, flatten, replicate, length,
  if◌then◌else◌, some, ok, true, arith,
}
use websocket_cpp.Protocol.Head.{WsHead, blob_frame}
use websocket_cpp.Protocol.Encode.{Encoded, encode_frame}
use websocket_cpp.Protocol.Decode.{Decoded, returned}
use websocket_cpp.Protocol.Mask.Laws.{IsBytes}
use websocket_cpp.Protocol.RoundTrip.{Delivers}
use websocket_cpp.Heartbeat.{send, wait_ping, wait_pong}
use websocket_cpp.Heartbeat.Exchange.{asks_ping}
use websocket_cpp.WsNet.{WsNet, on_conn_message}
use websocket_cpp.WsNet.Messages.{is_pong}
use websocket_cpp.WebSocketServer.{Handled, on_conn_message as server_message, send_text}
use websocket_cpp.WebSocketServer.Messages.{IsHandled, server_receives}
use websocket_cpp.WebSocketServer.Replies.{client_receives}

abbrev junk_head : WsHead
junk_head = record { fin = 0; rsv = 5; opcode = 9; mask = 0; payload_len = 77 }

-- So many times the letter "A"
abbrev letters : ℕ → List ℕ
letters n = replicate n 65

letters-IsBytes : (n : ℕ) → IsBytes (letters n)
unfolding replicate
letters-IsBytes zero = tt
letters-IsBytes (suc n) = (omega arith, letters-IsBytes n)

length-letters : (n : ℕ) → length (letters n) ≡ n
length-letters n = length-replicate n 65

-- Two slices, of 500 and 200 bytes
abbrev message : List ℕ
message = letters 700

abbrev client : WsNet
client = record {
  proto = record { frame_buff = letters 800; frame_pos = 0 };
  heart = wait_pong;
  connected = true;
  timers = [];
}

server_receives_example :
    (e : Encoded) × (h : Handled) × (encode_frame junk_head message (length message) blob_frame
      ≡ ok e)
    × (server_message 700 junk_head 100000000 (letters 800) 2 (flatten e.frames) []
        ≡ ok (h, returned))
    × IsHandled 100000000 2 (if asks_ping message (length message) then [] else message ∷ []) h
server_receives_example =
    server_receives 700 junk_head junk_head blob_frame 100000000 (letters 800) 2 message [] tt
      (letters-IsBytes 700) (omega (arith, length-letters 700))
      (inr (omega (arith, length-letters 700))) (omega (arith, length-letters 700))
      (omega (arith, length-letters 700, length-letters 800)) (omega (arith, length-letters 700)) tt
      (omega arith)

client_receives_example :
    (frames : List (List ℕ)) × (d : Decoded) × (send_text junk_head (some 2) message
      ≡ ok (map send frames))
    × (on_conn_message (suc 700) client (flatten frames) ≡ (
      (if is_pong message then [] else message ∷ []),
      d,
      record client { proto = d.proto; heart = if is_pong message then wait_ping else wait_pong },
    ))
    × Delivers client.proto (message ∷ []) d
    × (length message < 500 → d.proto ≡ client.proto)
client_receives_example =
    client_receives 700 junk_head 2 client message (letters-IsBytes 700)
      (omega (arith, length-letters 700)) (inr (omega (arith, length-letters 700)))
      (omega (arith, length-letters 700)) (omega (arith, length-letters 700, length-letters 800))
      (omega (arith, length-letters 700))
