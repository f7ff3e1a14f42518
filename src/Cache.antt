-- ===== src/Cache.antt =====
-- shared/block.c: the cache of blocks.
pub mod Setup
pub mod State
pub mod Waiters
pub mod Queues
pub mod Submit
pub mod SubmitOrder
pub mod EndIo
pub mod Completion
pub mod Writeback
pub mod Get
pub mod Sets
pub mod Sync
pub mod Sound
pub mod Clear
pub mod Walk
pub mod Merge
pub mod Join
pub mod Gather
pub mod Dirty
pub mod WritebackWork
