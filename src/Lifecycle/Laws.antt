-- ===== src/Lifecycle/Laws.antt =====
-- What the operations of mybot_device_lifecycle.c do, beside keeping the invariant.
pub mod Shutdown
pub mod Asked
pub mod Retry
pub mod Loss
pub mod Rejection
