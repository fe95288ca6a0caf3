-- ===== src/Timer.antt =====
-- src/timer: the retransmission and acknowledgement timers, and the retransmission timeout.
pub mod Rto
pub mod Rtx
pub mod Ack
