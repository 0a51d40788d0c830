-- ===== src/MkdirP.antt =====
-- c/mkdir_p.c: a directory is made with all those above it.
pub mod Ops
pub mod Restored
pub mod Balance
pub mod Way
pub mod Descent
pub mod Created
pub mod Termination
mod Tests
