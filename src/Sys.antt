-- ===== src/Sys.antt =====
-- System calls (apps/kernel/SyscallHandler.cc), as far as they work on capabilities.
pub mod Exchange
pub mod Memory
pub mod Buffers
