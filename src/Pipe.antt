-- ===== src/Pipe.antt =====
-- The pipe server (apps/pipeserv).
pub mod RingBuf
pub mod Session
pub mod Service
