-- ===== src/Fs.antt =====
-- The file system m3fs (apps/m3fs).
pub mod Allocator
