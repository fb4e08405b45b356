-- ===== src/WebSocket.antt =====
-- `WebSocket` of websocket/WebSocket.cpp, the interface of the client for its user: what it sends.
pub mod Arrives
mod Tests
use websocket_cpp.Base.{ℕ, List, Bool, Option, Result}
use websocket_cpp.Protocol.Head.{WsHead, text_frame}
use websocket_cpp.WsNet.Send

abbrev pub Sent : Type 0
Sent = Option (Result (List (ℕ × List ℕ)))

-- `sendString`
unfoldable pub send_string : ℕ → (ℕ → Bool) → Option ℕ → WsHead → List ℕ → Sent
send_string fuel reads conn stack payload = Send.send fuel reads conn stack payload text_frame

-- `sendBlob`, which leaves the type of the frame to the default of `WSNet::send`
unfoldable pub send_blob : ℕ → (ℕ → Bool) → Option ℕ → WsHead → List ℕ → Sent
send_blob fuel reads conn stack payload = Send.send fuel reads conn stack payload text_frame
