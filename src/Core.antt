-- ===== src/Core.antt =====
-- include/beast/core: the octets that the protocols keep and exchange.
pub mod Memory
pub mod DynamicBuffer
pub mod FlatBuffer
pub mod StaticBuffer
pub mod MultiBuffer
pub mod BufferSequences
pub mod Base64
mod Tests
pub mod CiEqual
