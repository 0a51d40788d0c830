-- ===== src/CompilerProperties/Balance.antt =====
-- What the two functions give back, whichever calls fail.
pub mod Parts
pub mod Triplet
pub mod March
