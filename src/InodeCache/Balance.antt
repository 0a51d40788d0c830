-- ===== src/InodeCache/Balance.antt =====
-- No operation of the cache leaks a descriptor or a heap block, whichever of its calls fail.
pub mod Loops
pub mod Parts
pub mod Put
pub mod Del
pub mod Get
