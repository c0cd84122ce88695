-- ===== src/WebSocketProtocol.antt =====
-- src/WebSocketProtocol.cpp: the digest and keys of the opening handshake, and the frame codec.
pub mod Sha1
pub mod Frame
pub mod Handshake
