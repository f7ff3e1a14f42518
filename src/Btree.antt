-- ===== src/Btree.antt =====
-- shared/btree.c: items with variable-length keys packed into one 4 KB block.
pub mod Keys
pub mod Layout
pub mod Search
pub mod Items
pub mod Valid
pub mod Slots
pub mod Insert
pub mod Remove
pub mod Compact
pub mod Move
pub mod Balance
pub mod Ops
pub mod Map
