-- ===== src/InodeCache.antt =====
-- c/inodecache.c: a cache of values for files, keyed by the metadata of the file's inode. An entry
-- is a file of the cache directory, and is read and written under a lock on a file beside it.
pub mod Key
pub mod Entry
pub mod Lock
pub mod Ops
pub mod Balance
pub mod Writes
pub mod Reads
pub mod ReadOnly
pub mod RoundTrip
pub mod Termination
pub mod Bounds
pub mod Client
pub mod Concurrent
pub mod Refinement
pub mod Tests
mod LoopTests
pub mod Injective
