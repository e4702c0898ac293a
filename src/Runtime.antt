-- ===== src/Runtime.antt =====
-- The runtime that the generated threads call: runtime/queue.c and runtime/simple_sync.c.
pub mod Threads
pub mod Queue
pub mod Monitor
pub mod Channels
mod Tests
