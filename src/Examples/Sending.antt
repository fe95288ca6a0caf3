-- ===== src/Examples/Sending.antt =====
-- The properties of timeouts and of the packets that are gathered, at concrete inputs.
use sctp.Base.{ℕ, ◌*◌, ◌/◌, ◌%◌, ◌^◌, ◌≡◌, true, false, some, max, ◌||◌}
use sctp.Chunk.PayloadData.{ChunkPayloadData, abandoned}
use sctp.Queue.Payload
use sctp.Association.State.{shutdown_ack_sent}
use sctp.Association.Internal.{Association}
use sctp.Association.Timeouts.{on_retransmission_timeout, t3_rtx, on_t3_timeout-restarts}
use sctp.Association.Gather.{outbound}
use sctp.Association.Gather.End.{EndsWell, outbound-EndsWell}
use sctp.Examples.{association}

on_t3_timeout-restarts_example :
    ((on_retransmission_timeout association t3_rtx).cwnd ≡ 1228)
    × ((on_retransmission_timeout association t3_rtx).ssthresh ≡ max (4380 / 2) (4 * 1228 % 2 ^ 32))
    × ((tsn : ℕ) (c : ChunkPayloadData)
        → Payload.get association.inflight_queue tsn ≡ some c
        → (c.acked || abandoned association.cells c) ≡ false
        → Payload.get (on_retransmission_timeout association t3_rtx).inflight_queue tsn
          ≡ some (record c { retransmit = true }))
on_t3_timeout-restarts_example = on_t3_timeout-restarts association

abbrev completing : Association
completing = record association { state = shutdown_ack_sent; will_send_shutdown_complete = true }

outbound-EndsWell_example : EndsWell (outbound 1 completing)
outbound-EndsWell_example = outbound-EndsWell 1 completing
