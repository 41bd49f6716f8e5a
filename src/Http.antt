-- ===== src/Http.antt =====
-- include/beast/http: the HTTP parser.
pub mod Chars
pub mod Scan
pub mod Lists
pub mod Params
pub mod Parser
pub mod Outcome
pub mod StartLine
pub mod Field
pub mod Fields
pub mod Header
pub mod Write
pub mod ChunkEncode
mod Tests
mod WriteTests
