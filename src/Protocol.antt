-- ===== src/Protocol.antt =====
-- The messages between shared/btr-msg.c and devd/recv.c.
pub mod Desc
pub mod Client
pub mod Server
pub mod Exchange
pub mod WriteExchange
