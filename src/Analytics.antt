-- ===== src/Analytics.antt =====
-- internal/analytics: the catalogue of the puzzle's content and the views over its events.
pub mod Catalog
pub mod Payload
pub mod Attempt
pub mod Step
pub mod Replay
pub mod Timeline
pub mod Drops
pub mod Tests
