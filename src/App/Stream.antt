-- ===== src/App/Stream.antt =====
-- The audio stream, src/app/stream.rs.
pub mod Sample
pub mod Play
pub mod Run
pub mod Session
