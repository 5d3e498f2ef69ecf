-- ===== src/Cap.antt =====
-- apps/kernel/cap: capabilities, their tables, and revocation.
pub mod Children
pub mod Capability
pub mod Table
pub mod Kernel
pub mod Revocations
pub mod Item
pub mod Revoke
pub mod Obtain
