-- ===== src/Websocket.antt =====
-- include/beast/websocket: the WebSocket protocol.
pub mod Opcode
pub mod Endian
pub mod Mask
pub mod StreamBase
pub mod Frame
pub mod Utf8
pub mod Close
pub mod Ping
pub mod Pmd
