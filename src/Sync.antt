-- ===== src/Sync.antt =====
-- include/ni/sync: backing off, and the spin lock; and the word of include/ni/futex.hh that threads
-- sleep on.
pub mod Sleep
pub mod SpinLock
pub mod Futex
