-- ===== src/Contracts.antt =====
-- internal/contracts: the wire types, their validation and the strict decoding of requests.
pub mod Types
pub mod Pattern
pub mod Library
pub mod Json
pub mod Validate
pub mod Decode
pub mod Tests
