-- ===== src/State.antt =====
-- src/state: the durable records of workflow runs and the transitions between them.
pub mod Domain
pub mod Receipts
pub mod Progress
pub mod Index
pub mod Texts
pub mod Codec
pub mod Transition
pub mod Events
pub mod Lock
pub mod Store
pub mod Recovery
