-- ===== src/Pfs.antt =====
-- shared/pfs.c: the operations on inodes, as transactions over blocks.
pub mod Inode
pub mod Block
pub mod Ops
pub mod RoundTrip
