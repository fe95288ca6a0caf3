-- ===== src/Queue.antt =====
-- src/queue: the three queues of DATA chunks.
pub mod Payload
pub mod Pending
pub mod Reassembly
