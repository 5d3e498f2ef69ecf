-- ===== src/Col.antt =====
-- include/base/col and apps/kernel/KVStore.h: the containers.
pub mod Treap
