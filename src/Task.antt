-- ===== src/Task.antt =====
-- Tasks: the registry of src/system/task/registry.rs and the wakers of src/system/task/waker.rs.
pub mod Registry
pub mod Waker
pub mod Execute
