-- ===== src/Association/Teardown.antt =====
-- The shutdown handshake of src/association/association_internal.rs and `shutdown` of
-- src/association/mod.rs, up to its wait for the end. Packets are values of their own.
pub mod Order
use sctp.Base.{
  ℕ, Bool, true, false, not, ◌&&◌, ◌||◌, List, [], ◌∷◌, ◌++◌, Option, none, some, if◌then◌else◌,
  ◌==◌, map,
}
use sctp.Base.Assoc.{keys}
use sctp.Error.{Result, ok, err, err_shutdown_non_established}
use sctp.Queue.Payload
use sctp.Timer.Ack as Ack
use sctp.Association.State.{
  AssociationState, closed, established, shutdown_pending, shutdown_received, shutdown_sent,
  shutdown_ack_sent, same_state,
}
use sctp.Association.Internal.{Association, set_state, awake_write_loop}
use sctp.Association.Receive.{unregister_all}

unfoldable pub close_all_timers : Association → Association
unfolding Ack.stop
close_all_timers a = record a {
  t1init = false;
  t1cookie = false;
  t2shutdown = false;
  t3rtx = false;
  treconfig = false;
  ack_timer = Ack.stop a.ack_timer;
}

unfoldable pub close : Association → Association
unfolding close_all_timers set_state unregister_all
close a =
    if not (same_state a.state closed)
    then unregister_all (close_all_timers (set_state a closed)) (keys a.streams)
    else a

-- `shutdown` works on the shared atomics without the association's lock, so that another handler can
-- come between its writes. What it does after it has read the state: it stores ShutdownPending,
unfoldable pub shutdown_pends : Association → Association
unfolding set_state
shutdown_pends a = set_state a shutdown_pending

-- it reads the number of chunks in flight and, with none, asks for a SHUTDOWN,
unfoldable pub shutdown_asks : Association → Bool × Association
unfolding awake_write_loop
shutdown_asks a =
    if a.inflight_queue.length_shared == 0
    then (true, awake_write_loop (record a { will_send_shutdown = true }))
    else (false, a)

-- and in that case stores ShutdownSent.
unfoldable pub shutdown_sends : Bool → Association → Association
unfolding set_state
shutdown_sends asked a = if asked then set_state a shutdown_sent else a

-- A call of `shutdown` up to its wait for the end, when no handler comes between.
unfoldable pub shutdown : Association → Association × Result (Unit {0})
unfolding shutdown_pends shutdown_asks shutdown_sends
shutdown a =
    if not (same_state a.state established)
    then (a, err err_shutdown_non_established)
    else let (asked, b) = shutdown_asks (shutdown_pends a) in (shutdown_sends asked b, ok tt)

unfoldable pub handle_shutdown : Association → Association
unfolding set_state awake_write_loop
handle_shutdown a =
    let acked =
      awake_write_loop (set_state (record a { will_send_shutdown_ack = true }) shutdown_ack_sent) in
    if same_state a.state established
    then if not (Payload.is_empty a.inflight_queue) then set_state a shutdown_received else acked
    else if same_state a.state shutdown_sent
    then acked
    else a

unfoldable pub handle_shutdown_ack : Association → Association
unfolding awake_write_loop
handle_shutdown_ack a =
    if same_state a.state shutdown_sent || same_state a.state shutdown_ack_sent
    then awake_write_loop (record a { t2shutdown = false; will_send_shutdown_complete = true })
    else a

unfoldable pub handle_shutdown_complete : Association → Association
unfolding close
handle_shutdown_complete a =
    if same_state a.state shutdown_ack_sent then close (record a { t2shutdown = false }) else a

pub data ShutdownPacket : Type 0 where
  shutdown_chunk : ℕ → ShutdownPacket
  shutdown_ack_chunk shutdown_complete_chunk : ShutdownPacket

-- The packet, if one is due, and whether the association goes on.
unfoldable pub gather_outbound_shutdown_packets :
    Association → Option ShutdownPacket × Bool × Association
gather_outbound_shutdown_packets a =
    if a.will_send_shutdown
    then (
      some (shutdown_chunk a.cumulative_tsn_ack_point),
      true,
      record a { will_send_shutdown = false; t2shutdown = true },
    )
    else if a.will_send_shutdown_ack
    then (
      some shutdown_ack_chunk,
      true,
      record a { will_send_shutdown_ack = false; t2shutdown = true },
    )
    else if a.will_send_shutdown_complete
    then (some shutdown_complete_chunk, false, record a { will_send_shutdown_complete = false })
    else (none, true, a)
