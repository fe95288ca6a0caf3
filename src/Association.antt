-- ===== src/Association.antt =====
-- src/association/: the endpoint's state and the handlers that run under its lock.
pub mod State
pub mod Internal
pub mod Create
pub mod Handshake
pub mod Sack
pub mod Receive
pub mod Teardown
pub mod Send
pub mod Timeouts
pub mod Gather
pub mod Inbound
