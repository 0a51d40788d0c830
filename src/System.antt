-- ===== src/System.antt =====
-- The part of POSIX and of the C library that the C sources call: state and monad, the file calls,
-- the heap. Each call can fail as the environment of the model decides.
pub mod World
pub mod Files
pub mod Memory
pub mod Resources
pub mod Holding
pub mod Frames
pub mod Keeps
pub mod Quiet
pub mod Processes
pub mod Descriptors
pub mod Examples
