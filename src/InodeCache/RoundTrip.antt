-- ===== src/InodeCache/RoundTrip.antt =====
-- What is put can be had back, when no call fails.
pub mod Names
pub mod Locking
pub mod Put
pub mod Get
pub mod Del
pub mod Missing
