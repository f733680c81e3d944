-- ===== src/Sync.antt =====
-- The synchronisation primitives, src/sync.
pub mod Mutex
pub mod Queue
pub mod RingBuffer
pub mod Isr
pub mod EventGroup
pub mod Critical
