-- ===== src/Sync.antt =====
-- subsys/sync: the locks. Each runs on several processors at once, an atomic access to memory at a time.
pub mod Spinlock
pub mod Interleave
pub mod Rwlock
pub mod Mcslock
pub mod Mutex
