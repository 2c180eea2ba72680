-- ===== src/Contracts.antt =====
-- src/contracts: the numeric contracts of worker tasks.
pub mod TaskPacket
pub mod QualityScore
pub mod RetrievalBudget
pub mod LedgerSchema
pub mod AcceptanceLedger
pub mod Rejections
pub mod PacketCompiler
