-- ===== src/Ws.antt =====
-- debugger/src/websocket_server.cpp: base64 and SHA-1, the HTTP side and the handshake, and the frames
-- of a connection.
pub mod Frames
pub mod Masks
pub mod RoundTrip
pub mod Base64
pub mod Sha1
pub mod Sending
pub mod Receive
pub mod Http
pub mod Server
