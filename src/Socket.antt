-- ===== src/Socket.antt =====
-- shared/mtr-socket.c: the transport of messages over sockets.
pub mod Iovec
pub mod Whole
pub mod Threads
pub mod Peer
pub mod Connect
pub mod Reads
pub mod Message
pub mod Receive
pub mod Stream
pub mod Send
pub mod Descriptors
