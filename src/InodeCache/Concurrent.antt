-- ===== src/InodeCache/Concurrent.antt =====
-- Many processes that use one entry of the cache of c/inodecache.c at the same time.
pub mod Turn
pub mod Locks
pub mod Serial
pub mod Turns
pub mod Invariant
pub mod Reported
pub mod Intended
pub mod Defined
pub mod Safety
mod Tests
