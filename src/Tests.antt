-- ===== src/Tests.antt =====
-- The theorems at concrete inputs.
pub mod Containers
pub mod Memory
pub mod Ddl
pub mod Caps
pub mod Revocation
pub mod Messages
pub mod Kernels
pub mod Pipe
pub mod Calls
pub mod Buffers
pub mod Files
