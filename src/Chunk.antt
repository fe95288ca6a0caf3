-- ===== src/Chunk.antt =====
-- src/chunk: the chunks that the model reads, writes and passes about.
pub mod Header
pub mod PayloadData
pub mod SelectiveAck
pub mod ForwardTsn
pub mod Init
pub mod Reconfig
pub mod Causes
pub mod Control
