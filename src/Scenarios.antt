-- ===== src/Scenarios.antt =====
-- Concrete runs, events and directories, and what the theorems say of them.
mod Records
mod Reshaped
mod Directory
mod Migrated
mod Decisions
mod Locking
mod Ledger
mod Teams
mod Packets
