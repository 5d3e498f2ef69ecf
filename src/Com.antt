-- ===== src/Com.antt =====
-- Messages to services (apps/kernel/SendQueue.h) and the buffers that receive messages
-- (apps/kernel/com/RecvBufs.h).
pub mod SendQueue
pub mod RecvBufs
