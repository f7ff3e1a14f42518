-- ===== src/Txn.antt =====
-- shared/txn.c: transactions over several blocks.
pub mod State
pub mod Execute
pub mod Counts
pub mod Release
pub mod Single
