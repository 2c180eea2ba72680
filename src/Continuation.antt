-- ===== src/Continuation.antt =====
-- src/continuation: whether an idle session is told to go on.
pub mod Budget
pub mod Coordinator
pub mod Event
pub mod Fence
