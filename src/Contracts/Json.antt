-- ===== src/Contracts/Json.antt =====
-- internal/contracts/decode_scan.go: the scan for duplicate keys and deep nesting, over the
-- tokens of encoding/json's Decoder, which is a parameter.
pub mod Decoder
pub mod Scan
pub mod Spec
mod Verdict
mod Skipping
mod Scanning
pub mod Requests
pub mod Tests
