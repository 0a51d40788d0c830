-- ===== src/Barrier.antt =====
-- c/barrier.c: a barrier of N threads or processes over two semaphores.
pub mod Wait
pub mod Counts
pub mod Invariant
pub mod Safety
pub mod Live
pub mod Progress
pub mod Init
mod Tests
