-- ===== src/Param.antt =====
-- src/param: the parameters of the INIT, HEARTBEAT and RE-CONFIG chunks.
pub mod Kind
pub mod Values
pub mod Build
