-- ===== src/Msg.antt =====
-- shared/msg.c: messages between peers.
pub mod Wire
pub mod Handlers
pub mod Peers
pub mod References
pub mod Setup
