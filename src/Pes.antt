-- ===== src/Pes.antt =====
-- The kernels of apps/kernel/pes.
pub mod Channel
