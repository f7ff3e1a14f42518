-- ===== src/Trace.antt =====
-- shared/trace.c: buffers of trace events, private to threads, and the thread that writes them.
pub mod Buffers
pub mod Store
pub mod Sound
pub mod Storing
pub mod Steps
pub mod Overlap
pub mod Setup
