-- ===== src/Ddl.antt =====
-- apps/kernel/ddl: the key space of the distributed data lookup.
pub mod Hash
pub mod Members
pub mod Partition
