-- ===== src/Extern.antt =====
-- What the firmware takes from crates and from FreeRTOS: interfaces with the documented laws, and
-- for each a simple implementation that shows that the laws can be met.
pub mod Deque
pub mod RtosQueue
pub mod EventGroup
pub mod HistoryBuffer
pub mod Spinlock
