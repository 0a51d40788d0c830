-- ===== src/Bench.antt =====
-- The benchmark of the cache: its figures, c/bench_stats.c, and its driver, c/bench_inodecache.c.
pub mod Clock
pub mod Stats
pub mod Merge
pub mod Result
pub mod Mapping
pub mod Child
pub mod Loops
pub mod Samples
pub mod Run
pub mod Steps
pub mod Clean
pub mod Count
pub mod Main
pub mod Whole
pub mod Together
pub mod Tests
mod DriverTests
