-- ===== src/Association/Receive/CumulativeTsn.antt =====
-- The cumulative TSN of the receiver in src/association/association_internal.rs, and how far
-- `handle_peer_last_tsn_and_acknowledgement` moves it.
use sctp.Base.{
  ℕ, zero, suc, ◌+◌, ◌<◌, ◌≡◌, ◌≢◌, refl, Bool, List, [], ◌∷◌, none, some, length, head?, arith,
  Bool-cases, inl, inr, add32, ap, sym, ◌∙◌, ◌==◌, ==_iff,
}
use sctp.Chunk.PayloadData.{ChunkPayloadData}
use sctp.Queue.Payload.{pop}
use sctp.Queue.Payload.Accounting.{IsConsistent, pop-Pops}
use sctp.Association.Internal.{Association, ParamOutgoingResetRequest}
use sctp.Association.Receive.{
  unregister_stream, unregister_all, reset_streams_if_any, reset_all, advance_loop, trigger_ack,
  handle_peer_last_tsn_and_acknowledgement,
}

-- A reset of streams touches neither the received TSNs nor the cumulative one.
abbrev SameTsns : Association → Association → Type 0
SameTsns a b = (b.payload_queue ≡ a.payload_queue) × (b.peer_last_tsn ≡ a.peer_last_tsn)

unregister_stream-tsns : (a : Association) (si : ℕ) → SameTsns a (unregister_stream a si)
unfolding unregister_stream
unregister_stream-tsns a si = (ground arith, ground arith)

unregister_all-tsns : (a : Association) (sis : List ℕ) → SameTsns a (unregister_all a sis)
unfolding unregister_all
unregister_all-tsns a [] = (refl, refl)
unregister_all-tsns a (si ∷ sis) =
    let r = unregister_all-tsns (unregister_stream a si) sis in
    let s = unregister_stream-tsns a si in (r.0 ∙ s.0, r.1 ∙ s.1)

reset_streams_if_any-tsns :
    (a : Association) (p : ParamOutgoingResetRequest) → SameTsns a (reset_streams_if_any a p).1
unfolding reset_streams_if_any
reset_streams_if_any-tsns a p = (
  ground (arith, (unregister_all-tsns a p.stream_identifiers).0),
  ground (arith, (unregister_all-tsns a p.stream_identifiers).1),
)

reset_all-tsns :
    (a : Association) (ps : List (ℕ × ParamOutgoingResetRequest)) → SameTsns a (reset_all a ps).1
unfolding reset_all
reset_all-tsns a [] = (refl, refl)
reset_all-tsns a ((k, p) ∷ ps) =
    let r = reset_all-tsns (reset_streams_if_any a p).1 ps in
    let s = reset_streams_if_any-tsns a p in (r.0 ∙ s.0, r.1 ∙ s.1)

-- The loop has nothing left to do.
pub record IsCaughtUp (a : Association) : Type 0 where
  pub consistent : IsConsistent a.payload_queue
  pub gap : head? a.payload_queue.sorted ≢ some (add32 a.peer_last_tsn 1)

abbrev next_of : Association → ℕ
next_of a = add32 a.peer_last_tsn 1

advance_stop :
    (fuel : ℕ) (a : Association)
    → IsConsistent a.payload_queue
    → head? a.payload_queue.sorted ≢ some (next_of a)
    → IsCaughtUp (advance_loop (suc fuel) a).1
unfolding advance_loop
advance_stop fuel a v h =
    let p = (pop-Pops (next_of a) v).elsewhere h in
    let none_left : (pop a.payload_queue (next_of a)).0 ≡ none = rw p refl in
    let kept : (pop a.payload_queue (next_of a)).1 ≡ a.payload_queue = rw p refl in
    rw (none_left, advance_loop) (record { consistent = rw kept v; gap = rw kept h })

advance_go :
    (fuel : ℕ) (a : Association) (c : ChunkPayloadData)
    → (pop a.payload_queue (next_of a)).0 ≡ some c
    → (advance_loop (suc fuel) a).1
      ≡ (advance_loop fuel
          (reset_all
            (record a {
              payload_queue = (pop a.payload_queue (next_of a)).1;
              peer_last_tsn = next_of a;
            })
            a.reconfig_requests).1).1
unfolding advance_loop
advance_go fuel a c e = rw (e, advance_loop) refl

advance_loop-IsCaughtUp :
    (fuel : ℕ) (a : Association)
    → length a.payload_queue.sorted < fuel
    → IsConsistent a.payload_queue
    → IsCaughtUp (advance_loop fuel a).1
advance_loop-IsCaughtUp zero a f v = absurd (omega arith)
advance_loop-IsCaughtUp (suc fuel) a f v =
    go a.payload_queue.sorted refl (λ b g w. advance_loop-IsCaughtUp fuel b g w)
  where
    go :
        (ts : List ℕ)
        → a.payload_queue.sorted ≡ ts
        → ((b : Association)
            → length b.payload_queue.sorted < fuel
            → IsConsistent b.payload_queue
            → IsCaughtUp (advance_loop fuel b).1)
        → IsCaughtUp (advance_loop (suc fuel) a).1
    go [] e rec = advance_stop fuel a v (rw e (λ x. cc))
    go (t ∷ ts) e rec = elim (Bool-cases (next_of a == t)) [
      | inr miss ↦ advance_stop fuel a v (rw e (λ x. ground (arith, x)))
      | inl hit ↦
          let (c, p, l, s, m) =
            (pop-Pops (next_of a) v).front t ts e ((==_iff (next_of a) t).0 hit) in
          let b : Association = record a {
            payload_queue = (pop a.payload_queue (next_of a)).1;
            peer_last_tsn = next_of a;
          } in
          let k = reset_all-tsns b a.reconfig_requests in
          let shorter : suc (length ts) ≡ length a.payload_queue.sorted = ap length (sym e) in
          rw (advance_go fuel a c p) (
            rec (reset_all b a.reconfig_requests).1
              (omega (arith, ap (λ r. length r.sorted) k.0, ap length s, shorter, f))
              (rw k.0 ((pop-Pops (next_of a) v).consistent)))
    ]

trigger_ack-tsns : (a : Association) (now : Bool) → SameTsns a (trigger_ack a now)
unfolding trigger_ack
trigger_ack-tsns a now = (ground arith, ground arith)

-- The fuel is enough: after the routine that DATA and FORWARD-TSN share, the TSN after the
-- cumulative one is not at the front of the received ones, and the queue is consistent, when it was
-- so before.
pub handle_peer_last_tsn-IsCaughtUp :
    (a : Association) (now : Bool)
    → IsConsistent a.payload_queue
    → IsCaughtUp (handle_peer_last_tsn_and_acknowledgement a now).1
unfolding handle_peer_last_tsn_and_acknowledgement
handle_peer_last_tsn-IsCaughtUp a now v =
    let fuel = length a.payload_queue.sorted + 1 in
    let c = advance_loop-IsCaughtUp fuel a (omega arith) v in
    let t = trigger_ack-tsns (advance_loop fuel a).1 now in
    record { consistent = rw t.0 c.consistent; gap = rw (t.0, t.1) c.gap }
