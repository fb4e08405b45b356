-- ===== src/Protocol.antt =====
-- websocket/WSProtocol.h and WSProtocol.cpp: the frames of the protocol.
pub mod Head
pub mod Mask
pub mod Encode
pub mod Decode
pub mod RoundTrip
mod Tests
