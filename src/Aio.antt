-- ===== src/Aio.antt =====
-- devd/btr-aio.c: the block transport over the asynchronous IO of the device daemon.
pub mod Bitmap
pub mod Transport
pub mod InFlight
pub mod Setup
