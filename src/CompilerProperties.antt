-- ===== src/CompilerProperties.antt =====
-- c/compiler_properties.c: what a compiler says about itself.
pub mod Whitespace
pub mod Triplet
pub mod March
pub mod Forked
pub mod Prepared
pub mod Redirect
pub mod Executed
pub mod Match
pub mod Answer
pub mod FirstMatch
pub mod MarchAnswer
pub mod Balance
pub mod Termination
mod Tests
mod ChildTests
