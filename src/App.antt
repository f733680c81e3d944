-- ===== src/App.antt =====
-- The application, src/app.
pub mod Queue
pub mod Stream
pub mod Timing
pub mod Receiver
pub mod PacketQueue
pub mod Dispatch
pub mod Protocol
pub mod Bind
