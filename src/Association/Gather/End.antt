-- ===== src/Association/Gather/End.antt =====
-- src/association/association_internal.rs: when `gather_outbound` tells the write loop to end.
use sctp.Base.{ℕ, ◌≡◌, ap, Bool, true, false, List, [], ◌∷◌, ◌++◌, if◌then◌else◌, arith, ◌||◌}
use sctp.Packet.{Packet, shutdown_complete}
use sctp.Association.Internal.{Association, outbound_packet}
use sctp.Association.Teardown.{gather_outbound_shutdown_packets}
use sctp.Association.Gather.{shut_down, finish, by_state, outbound}
use sctp.Association.State.{
  AssociationState, same_state, established, shutdown_pending, shutdown_sent, shutdown_received,
  shutdown_ack_sent,
}

-- The loop goes on, or the last packet is a SHUTDOWN COMPLETE.
unfoldable pub EndsWell : List Packet × Bool × Association → Type 0
EndsWell r =
    r.1 ≡ false → (ps : List Packet) × (r.0 ≡ ps ++ (outbound_packet r.2 shutdown_complete ∷ []))

shut_down_complete :
    (a : Association)
    → (shut_down a).1 ≡ false
    → (shut_down a).0 ≡ outbound_packet (shut_down a).2 shutdown_complete ∷ []
unfolding shut_down gather_outbound_shutdown_packets
shut_down_complete a h = ground arith

finish-EndsWell : (r : List Packet × Association) → EndsWell (finish r)
unfolding EndsWell finish
finish-EndsWell (ps, a) h = (ps, ap (λ qs. ps ++ qs) (shut_down_complete a h))

going-EndsWell : (ps : List Packet) (a : Association) → EndsWell (ps, true, a)
unfolding EndsWell
going-EndsWell ps a h = ground arith

if-EndsWell :
    (b : Bool) (x y : List Packet × Bool × Association)
    → EndsWell x
    → EndsWell y
    → EndsWell (if b then x else y)
if-EndsWell true x y hx hy = hx
if-EndsWell false x y hx hy = hy

by_state-EndsWell :
    (state : AssociationState) (all resent control : List Packet × Association)
    → EndsWell (by_state state all resent control)
unfolding by_state
by_state-EndsWell state all resent control =
    if-EndsWell (same_state state established) (all.0, true, all.1) _ (going-EndsWell all.0 all.1)
      (if-EndsWell shutting (finish resent) _ (finish-EndsWell resent) (
        if-EndsWell (same_state state shutdown_ack_sent) (finish control)
          (control.0, true, control.1) (finish-EndsWell control)
          (going-EndsWell control.0 control.1)))
  where
    shutting : Bool
    shutting =
        same_state state shutdown_pending
        || same_state state shutdown_sent
        || same_state state shutdown_received

-- The write loop is told to end only with a SHUTDOWN COMPLETE as the last packet to send.
pub outbound-EndsWell : (now : ℕ) (a : Association) → EndsWell (outbound now a)
unfolding outbound
outbound-EndsWell now a = by_state-EndsWell a.state _ _ _
