-- ===== src/System.antt =====
-- Services of the firmware, src/system/.
pub mod Log
pub mod SharedBox
pub mod Builder
pub mod Heap
pub mod HeapBox
pub mod Top
