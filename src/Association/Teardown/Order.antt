-- ===== src/Association/Teardown/Order.antt =====
-- The order of the shutdown handshake of src/association/association_internal.rs: the steps that run
-- under the association's lock, and a call of `shutdown` that no such step interrupts.
use sctp.Base.{
  ℕ, ◌≤◌, ◌≡◌, refl, Bool, true, false, List, [], ◌∷◌, arith, Bool-cases, inl, inr, ap, ◌∙◌,
}
use sctp.Base.Assoc.{keys}
use sctp.Queue.Payload.{PayloadQueue}
use sctp.Association.State.{
  AssociationState, closed, cookie_wait, cookie_echoed, established, shutdown_pending,
  shutdown_received, shutdown_sent, shutdown_ack_sent, same_state, same_state-true,
}
use sctp.Association.Internal.{Association, set_state, awake_write_loop}
use sctp.Association.Receive.{unregister_all, unregister_stream}
use sctp.Association.Sack.Handle.{postprocess_sack}
use sctp.Association.Timeouts.{on_retransmission_timeout, t2_shutdown}
use sctp.Association.Teardown.{
  close, close_all_timers, shutdown, shutdown_pends, shutdown_asks, shutdown_sends, handle_shutdown,
  handle_shutdown_ack, handle_shutdown_complete, gather_outbound_shutdown_packets,
}

-- How far a shutdown has come.
abbrev pub rank : AssociationState → ℕ
rank closed = 4
rank shutdown_ack_sent = 3
rank shutdown_sent = 2
rank shutdown_pending = 1
rank shutdown_received = 1
rank _ = 0

-- One step: a call of the application, a packet of the handshake, the end of a SACK, the T2 timer,
-- the packets going out, or any other change of the chunks in flight. `shutdown` is a step when no
-- other one comes between its writes.
pub data Step : Association → Association → Type 0 where
  on_shutdown : (a : Association) → Step a (shutdown a).0
  on_close : (a : Association) → Step a (close a)
  on_shutdown_chunk : (a : Association) → Step a (handle_shutdown a)
  on_shutdown_ack : (a : Association) → Step a (handle_shutdown_ack a)
  on_shutdown_complete : (a : Association) → Step a (handle_shutdown_complete a)
  on_sack : (a : Association) (advanced : Bool) → Step a (postprocess_sack a a.state advanced)
  on_t2_timeout : (a : Association) → Step a (on_retransmission_timeout a t2_shutdown)
  on_gather : (a : Association) → Step a (gather_outbound_shutdown_packets a).2
  on_traffic : (a : Association) (q : PayloadQueue) → Step a (record a { inflight_queue = q })

pub data Steps : Association → Association → Type 0 where
  here : (a : Association) → Steps a a
  step : (a b c : Association) → Step a b → Steps b c → Steps a c

unregister_all-state : (a : Association) (sis : List ℕ) → (unregister_all a sis).state ≡ a.state
unfolding unregister_all unregister_stream
unregister_all-state a [] = refl
unregister_all-state a (si ∷ sis) = unregister_all-state (unregister_stream a si) sis ∙ ground arith

rank-bound : (st : AssociationState) → rank st ≤ 4
rank-bound closed = omega arith
rank-bound cookie_wait = omega arith
rank-bound cookie_echoed = omega arith
rank-bound established = omega arith
rank-bound shutdown_ack_sent = omega arith
rank-bound shutdown_pending = omega arith
rank-bound shutdown_received = omega arith
rank-bound shutdown_sent = omega arith

rank-same : (a b : AssociationState) → same_state a b ≡ true → rank a ≡ rank b
rank-same a b e = ap rank (same_state-true a b e)

-- What is due: SHUTDOWN and SHUTDOWN COMPLETE once the first was sent, SHUTDOWN ACK after that.
pub record IsDue (a : Association) : Type 0 where
  pub shutdown_due : a.will_send_shutdown ≡ true → 2 ≤ rank a.state
  pub ack_due : a.will_send_shutdown_ack ≡ true → 3 ≤ rank a.state
  pub complete_due : a.will_send_shutdown_complete ≡ true → 2 ≤ rank a.state

-- What a step keeps.
abbrev Advances : Association → Association → Type 0
Advances a b = (rank a.state ≤ rank b.state) × (IsDue a → IsDue b)

close-state : (a : Association) → (close a).state ≡ closed
unfolding close close_all_timers set_state
close-state a = elim (Bool-cases (same_state a.state closed)) [
  | inl e ↦ rw e (same_state-true a.state closed e)
  | inr e ↦ rw e (unregister_all-state (close_all_timers (set_state a closed)) (keys a.streams))
]

-- Closing is the end of every order.
closed-Advances : (a b : Association) → b.state ≡ closed → Advances a b
closed-Advances a b e =
    let r : rank b.state ≡ 4 = ap rank e in
    let bound = rank-bound a.state in
    (
      omega arith,
      λ v. record {
        shutdown_due = λ w. omega arith;
        ack_due = λ w. omega arith;
        complete_due = λ w. omega arith;
      },
    )

handle_shutdown_complete-Advances : (a : Association) → Advances a (handle_shutdown_complete a)
unfolding handle_shutdown_complete
handle_shutdown_complete-Advances a = elim (Bool-cases (same_state a.state shutdown_ack_sent)) [
  | inr e ↦ rw e (omega arith, λ v. v)
  | inl e ↦
      closed-Advances a (handle_shutdown_complete a)
        (rw (e, handle_shutdown_complete) (close-state (record a { t2shutdown = false })))
]

shutdown-Advances : (a : Association) → Advances a (shutdown a).0
unfolding shutdown shutdown_pends shutdown_asks shutdown_sends set_state awake_write_loop
shutdown-Advances a = (
  ground (arith, rank-same a.state established),
  λ v. record {
    shutdown_due = ground (arith, v.shutdown_due, rank-same a.state established);
    ack_due = ground (arith, v.ack_due, rank-same a.state established);
    complete_due = ground (arith, v.complete_due, rank-same a.state established);
  },
)

handle_shutdown-Advances : (a : Association) → Advances a (handle_shutdown a)
unfolding handle_shutdown set_state awake_write_loop
handle_shutdown-Advances a =
    let e = rank-same a.state established in
    let s = rank-same a.state shutdown_sent in
    (
      ground (arith, e, s),
      λ v. record {
        shutdown_due = ground (arith, v.shutdown_due, e, s);
        ack_due = ground (arith, v.ack_due, e, s);
        complete_due = ground (arith, v.complete_due, e, s);
      },
    )

handle_shutdown_ack-Advances : (a : Association) → Advances a (handle_shutdown_ack a)
unfolding handle_shutdown_ack awake_write_loop
handle_shutdown_ack-Advances a =
    let e = rank-same a.state shutdown_ack_sent in
    let s = rank-same a.state shutdown_sent in
    (
      ground (arith, e, s),
      λ v. record {
        shutdown_due = ground (arith, v.shutdown_due, e, s);
        ack_due = ground (arith, v.ack_due, e, s);
        complete_due = ground (arith, v.complete_due, e, s);
      },
    )

postprocess_sack-Advances :
    (a : Association) (advanced : Bool) → Advances a (postprocess_sack a a.state advanced)
unfolding postprocess_sack set_state awake_write_loop
postprocess_sack-Advances a advanced =
    let e = rank-same a.state shutdown_pending in
    let s = rank-same a.state shutdown_received in
    (
      ground (arith, e, s),
      λ v. record {
        shutdown_due = ground (arith, v.shutdown_due, e, s);
        ack_due = ground (arith, v.ack_due, e, s);
        complete_due = ground (arith, v.complete_due, e, s);
      },
    )

t2_timeout-Advances : (a : Association) → Advances a (on_retransmission_timeout a t2_shutdown)
unfolding on_retransmission_timeout awake_write_loop
t2_timeout-Advances a =
    let s = rank-same a.state shutdown_sent in
    let k = rank-same a.state shutdown_ack_sent in
    (
      ground (arith, s, k),
      λ v. record {
        shutdown_due = ground (arith, v.shutdown_due, s, k);
        ack_due = ground (arith, v.ack_due, s, k);
        complete_due = ground (arith, v.complete_due, s, k);
      },
    )

gather-Advances : (a : Association) → Advances a (gather_outbound_shutdown_packets a).2
unfolding gather_outbound_shutdown_packets
gather-Advances a = (
  ground arith,
  λ v. record {
    shutdown_due = ground (arith, v.shutdown_due);
    ack_due = ground (arith, v.ack_due);
    complete_due = ground (arith, v.complete_due);
  },
)

Step-Advances : {a b : Association} → Step a b → Advances a b
Step-Advances (on_shutdown a) = shutdown-Advances a
Step-Advances (on_close a) = closed-Advances a (close a) (close-state a)
Step-Advances (on_shutdown_chunk a) = handle_shutdown-Advances a
Step-Advances (on_shutdown_ack a) = handle_shutdown_ack-Advances a
Step-Advances (on_shutdown_complete a) = handle_shutdown_complete-Advances a
Step-Advances (on_sack a advanced) = postprocess_sack-Advances a advanced
Step-Advances (on_t2_timeout a) = t2_timeout-Advances a
Step-Advances (on_gather a) = gather-Advances a
Step-Advances (on_traffic a q) = (
  omega arith,
  λ v. record { shutdown_due = v.shutdown_due; ack_due = v.ack_due; complete_due = v.complete_due },
)

-- Whatever steps of the shutdown are taken under the association's lock, in whatever order, with
-- calls of `shutdown` that none of them interrupts, an association never goes back: from established
-- over pending or received, sent, and acknowledged to closed. And while it lasts a
-- SHUTDOWN or a SHUTDOWN COMPLETE is due only once the association is at least in ShutdownSent, a
-- SHUTDOWN ACK only from ShutdownAckSent on, when that is so at the start.
pub Steps-Advances :
    {a b : Association} → Steps a b → (rank a.state ≤ rank b.state) × (IsDue a → IsDue b)
Steps-Advances (here a) = (omega arith, λ v. v)
Steps-Advances (step a b c s r) =
    let p = Step-Advances s in
    let q = Steps-Advances r in (omega (arith, p.0, q.0), λ v. q.1 (p.1 v))
