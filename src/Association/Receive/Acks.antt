-- ===== src/Association/Receive/Acks.antt =====
-- When src/association/association_internal.rs acknowledges: at once or by the timer.
use sctp.Base.{Bool, true, false, not, ◌≡◌, arith}
use sctp.Queue.Payload
use sctp.Timer.Ack as Ack
use sctp.Association.Internal.{
  Association, AckState, AckMode, idle, immediate, delay, normal, no_delay, always_delay,
  awake_write_loop,
}
use sctp.Association.Receive.{trigger_ack, handle_chunk_start, handle_chunk_end}

-- The state of acknowledgement after a packet's one DATA chunk, from the state before it.
abbrev pub next_ack : AckMode → AckState → Bool → Bool → AckState
next_ack normal idle true _ = immediate
next_ack normal idle false true = immediate
next_ack normal idle false false = delay
next_ack normal _ _ _ = immediate
next_ack no_delay _ _ _ = immediate
next_ack always_delay idle _ _ = delay
next_ack always_delay _ _ _ = immediate

-- In normal mode an acknowledgement waits only for the first packet after one was sent, only if
-- nothing is missing, and only if the sender does not ask for it at once; in the two other modes it
-- never waits, or waits just for that first packet. The timer is started when it waits, which does
-- nothing to a timer that still holds its channel, and stopped when it does not. All this for a packet
-- with one DATA chunk.
pub trigger_ack_lem :
    (a : Association) (now : Bool)
    → ((handle_chunk_end (trigger_ack (handle_chunk_start a) now)).ack_state
        ≡ next_ack a.ack_mode a.ack_state now (not (Payload.is_empty a.payload_queue)))
      × ((handle_chunk_end (trigger_ack (handle_chunk_start a) now)).ack_timer
          ≡ elim (next_ack a.ack_mode a.ack_state now (not (Payload.is_empty a.payload_queue))) [
            | delay ↦ (Ack.start a.ack_timer).1
            | _ ↦ Ack.stop a.ack_timer
          ])
unfolding trigger_ack handle_chunk_start handle_chunk_end awake_write_loop Ack.start Ack.stop
trigger_ack_lem a now = (ground arith, ground arith)
