-- ===== src/Mem.antt =====
-- apps/kernel/mem: the kernel's memory management.
pub mod Areas
pub mod Main
