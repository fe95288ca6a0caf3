-- ===== src/Association/Sack/Handle/Monotone.antt =====
-- The cumulative TSN ack point of the sender never goes back, in `handle_sack` of
-- src/association/association_internal.rs.
use sctp.Base.{
  ℕ, zero, suc, ◌+◌, ◌-◌, ◌≡◌, ◌⊎◌, refl, Bool, true, false, not, ◌||◌, List, [], ◌∷◌,
  if◌then◌else◌, arith, Bool-cases, Option-cases, inl, inr, add32, sub32, ◌∙◌,
}
use sctp.Error.{Result, ok, err, panicked}
use sctp.Sna.{sna32lt, sna32lte, sna32gt}
use sctp.Chunk.PayloadData.{ChunkPayloadData}
use sctp.Queue.Payload.{GapAckBlock, pop}
use sctp.Association.State.{AssociationState}
use sctp.Association.Internal.{Association, ChunkSelectiveAck, set_state, awake_write_loop}
use sctp.Association.Sack.{
  BytesAcked, Progress, and_then, measure_rtt, ack_popped, leave_fast_recovery, pop_acked, pop_loop,
  gap_acked, block_loop, blocks_loop, process_selective_ack, grow_cwnd,
  on_cumulative_tsn_ack_point_advanced, mark_missing, mark_loop, ask_retransmit,
  process_fast_retransmission, enter_fast_recovery,
}
use sctp.Association.Sack.Handle.{
  release_buffers, advance_cumulative, update_rwnd, advance_forward, postprocess_sack, finish_sack,
  handle_sack, takes_sacks, total_bytes,
}

and_then-point {ℓ} :
    {P : Type ℓ} (point : P → ℕ) (n : ℕ) (r : P × Result (Unit {0})) (f : P → P × Result (Unit {0}))
    → point r.0 ≡ n
    → ((p : P) → point p ≡ n → point (f p).0 ≡ n)
    → point (and_then r f).0 ≡ n
and_then-point point n (p, ok _) f h g = g p h
and_then-point point n (p, err e) f h g = h
and_then-point point n (p, panicked) f h g = h

abbrev point_of : Progress → ℕ
point_of p = p.assoc.cumulative_tsn_ack_point

abbrev own_point : Association → ℕ
own_point a = a.cumulative_tsn_ack_point

ack_popped-point :
    (now i : ℕ) (p : Progress) (c : ChunkPayloadData)
    → point_of (ack_popped now i p c).0 ≡ point_of p
unfolding ack_popped measure_rtt
ack_popped-point now i p c = ground arith

leave_fast_recovery-point :
    (c : ChunkPayloadData) (p : Progress) → point_of (leave_fast_recovery c p) ≡ point_of p
unfolding leave_fast_recovery
leave_fast_recovery-point c p = ground arith

pop_acked-point : (now i : ℕ) (p : Progress) → point_of (pop_acked now i p).0 ≡ point_of p
unfolding pop_acked
pop_acked-point now i p = elim (Option-cases (pop p.assoc.inflight_queue i).0) [
  | inl e ↦ rw (e, pop_acked) refl
  | inr (c, e) ↦
      rw (e, pop_acked)
        (and_then-point point_of (point_of p) _ (λ r. (leave_fast_recovery c r, ok tt))
          (ack_popped-point now i
            (record p {
              assoc = record (p.assoc) { inflight_queue = (pop p.assoc.inflight_queue i).1 };
            })
            c)
          (λ r h. leave_fast_recovery-point c r ∙ h))
]

pop_loop-point :
    (fuel now cum i n : ℕ) (p : Progress)
    → point_of p ≡ n
    → point_of (pop_loop fuel now cum i p).0 ≡ n
unfolding pop_loop
pop_loop-point zero now cum i n p h = h
pop_loop-point (suc fuel) now cum i n p h = elim (Bool-cases (sna32lte i cum)) [
  | inr e ↦ rw (e, pop_loop) h
  | inl e ↦
      rw (e, pop_loop)
        (and_then-point point_of n (pop_acked now i p) (pop_loop fuel now cum (add32 i 1))
          (pop_acked-point now i p ∙ h) (λ r k. pop_loop-point fuel now cum (add32 i 1) n r k))
]

gap_acked-point : (now tsn : ℕ) (p : Progress) → point_of (gap_acked now tsn p).0 ≡ point_of p
unfolding gap_acked measure_rtt
gap_acked-point now tsn p = ground arith

block_loop-point :
    (k now cum i n : ℕ) (p : Progress) → point_of p ≡ n → point_of (block_loop k now cum i p).0 ≡ n
unfolding block_loop
block_loop-point zero now cum i n p h = h
block_loop-point (suc k) now cum i n p h =
    and_then-point point_of n (gap_acked now (add32 cum i) p) (block_loop k now cum (i + 1))
      (gap_acked-point now (add32 cum i) p ∙ h) (λ r l. block_loop-point k now cum (i + 1) n r l)

blocks_loop-point :
    (now cum n : ℕ) (gs : List GapAckBlock) (p : Progress)
    → point_of p ≡ n
    → point_of (blocks_loop now cum gs p).0 ≡ n
unfolding blocks_loop
blocks_loop-point now cum n [] p h = h
blocks_loop-point now cum n (g ∷ gs) p h =
    and_then-point point_of n (block_loop (g.finish + 1 - g.start) now cum g.start p)
      (blocks_loop now cum gs) (block_loop-point (g.finish + 1 - g.start) now cum g.start n p h)
      (λ r l. blocks_loop-point now cum n gs r l)

process_selective_ack-point :
    (now : ℕ) (a : Association) (d : ChunkSelectiveAck)
    → point_of (process_selective_ack now a d).0 ≡ own_point a
unfolding process_selective_ack
process_selective_ack-point now a d =
    let i = add32 a.cumulative_tsn_ack_point 1 in
    and_then-point point_of (own_point a) _ (blocks_loop now d.cumulative_tsn_ack d.gap_ack_blocks)
      (pop_loop-point (sub32 (add32 d.cumulative_tsn_ack 1) i) now d.cumulative_tsn_ack i
        (own_point a) (record { assoc = a; bytes_acked = []; htna = d.cumulative_tsn_ack }) refl)
      (λ r l. blocks_loop-point now d.cumulative_tsn_ack (own_point a) d.gap_ack_blocks r l)

mark_missing-point :
    (htna tsn : ℕ) (a : Association) → own_point (mark_missing htna tsn a).0 ≡ own_point a
unfolding mark_missing enter_fast_recovery
mark_missing-point htna tsn a = ground arith

mark_loop-point :
    (fuel htna top tsn n : ℕ) (a : Association)
    → own_point a ≡ n
    → own_point (mark_loop fuel htna top tsn a).0 ≡ n
unfolding mark_loop
mark_loop-point zero htna top tsn n a h = h
mark_loop-point (suc fuel) htna top tsn n a h = elim (Bool-cases (sna32lt tsn top)) [
  | inr e ↦ rw (e, mark_loop) h
  | inl e ↦
      rw (e, mark_loop)
        (and_then-point own_point n (mark_missing htna tsn a)
          (mark_loop fuel htna top (add32 tsn 1)) (mark_missing-point htna tsn a ∙ h)
          (λ r k. mark_loop-point fuel htna top (add32 tsn 1) n r k))
]

ask_retransmit-point : (b : Bool) (a : Association) → own_point (ask_retransmit b a) ≡ own_point a
unfolding ask_retransmit
ask_retransmit-point b a = ground arith

fast-point :
    (a : Association) (cum htna : ℕ) (advanced : Bool)
    → own_point (process_fast_retransmission a cum htna advanced).0 ≡ own_point a
unfolding process_fast_retransmission
fast-point a cum htna advanced = elim (Bool-cases (not a.in_fast_recovery || advanced)) [
  | inr e ↦ rw e (ask_retransmit-point advanced a)
  | inl e ↦ rw e (
      and_then-point own_point (own_point a) _ (λ b. (ask_retransmit advanced b, ok tt))
        (mark_loop-point _ htna _ (add32 cum 1) (own_point a) a refl)
        (λ b k. ask_retransmit-point advanced b ∙ k))
]

release_buffers-point :
    (m : BytesAcked) (a : Association) → own_point (release_buffers m a) ≡ own_point a
unfolding release_buffers
release_buffers-point [] a = refl
release_buffers-point ((si, n) ∷ m) a = release_buffers-point m _

advance_cumulative-point :
    (a : Association) (d : ChunkSelectiveAck) (n : ℕ)
    → own_point (advance_cumulative a d n) ≡ d.cumulative_tsn_ack
unfolding advance_cumulative on_cumulative_tsn_ack_point_advanced grow_cwnd
advance_cumulative-point a d n = ground arith

advance_forward-point : (a : Association) → own_point (advance_forward a) ≡ own_point a
unfolding advance_forward awake_write_loop
advance_forward-point a = refl

postprocess_sack-point :
    (a : Association) (st : AssociationState) (b : Bool)
    → own_point (postprocess_sack a st b) ≡ own_point a
unfolding postprocess_sack set_state awake_write_loop
postprocess_sack-point a st b = ground arith

-- The point before the lost chunks are looked for.
moved_point :
    (a : Association) (d : ChunkSelectiveAck) (acked : BytesAcked) (credit : ℕ) (advanced : Bool)
    → own_point (
        update_rwnd
          (release_buffers acked
            (if advanced then advance_cumulative a d (total_bytes acked) else a))
          credit)
      ≡ (if advanced then d.cumulative_tsn_ack else a.cumulative_tsn_ack_point)
unfolding update_rwnd
moved_point a d acked credit true =
    release_buffers-point acked (advance_cumulative a d (total_bytes acked))
    ∙ advance_cumulative-point a d (total_bytes acked)
moved_point a d acked credit false = release_buffers-point acked a

forwarded-point :
    (b : Bool) (a : Association) → own_point (if b then advance_forward a else a) ≡ own_point a
forwarded-point true a = advance_forward-point a
forwarded-point false a = refl

ended-point :
    (st : AssociationState) (advanced : Bool) (n : ℕ) (a : Association) (o : Result (Unit {0}))
    → own_point a ≡ n
    → own_point
        (elim o as (λ _. Association × Result (Unit {0})) [
          | ok _ ↦ (
            postprocess_sack (if a.use_forward_tsn then advance_forward a else a) st advanced,
            ok tt,
          )
          | err e ↦ (a, err e)
          | panicked ↦ (a, panicked)
        ]).0
      ≡ n
ended-point st advanced n a (ok _) h =
    postprocess_sack-point _ st advanced ∙ forwarded-point a.use_forward_tsn a ∙ h
ended-point st advanced n a (err e) h = h
ended-point st advanced n a panicked h = h

finish_sack-point :
    (a : Association) (d : ChunkSelectiveAck) (acked : BytesAcked) (htna : ℕ)
    → own_point (finish_sack a d acked htna).0 ≡ (
        if sna32lt a.cumulative_tsn_ack_point d.cumulative_tsn_ack
        then d.cumulative_tsn_ack
        else a.cumulative_tsn_ack_point)
unfolding finish_sack
finish_sack-point a d acked htna =
    let advanced = sna32lt a.cumulative_tsn_ack_point d.cumulative_tsn_ack in
    let credit = d.advertised_receiver_window_credit in
    let moved =
      update_rwnd
        (release_buffers acked (if advanced then advance_cumulative a d (total_bytes acked) else a))
        credit in
    let run = process_fast_retransmission moved d.cumulative_tsn_ack htna advanced in
    ended-point a.state advanced
      (if advanced then d.cumulative_tsn_ack else a.cumulative_tsn_ack_point) run.0 run.1
      (fast-point moved d.cumulative_tsn_ack htna advanced ∙ moved_point a d acked credit advanced)

abbrev MovesTo : Association → ChunkSelectiveAck → Association → Type 0
MovesTo a d b =
    (b.cumulative_tsn_ack_point ≡ a.cumulative_tsn_ack_point)
    ⊎ ((sna32lt a.cumulative_tsn_ack_point d.cumulative_tsn_ack ≡ true)
        × (b.cumulative_tsn_ack_point ≡ d.cumulative_tsn_ack))

-- The handler after the SACK was processed, well or not.
processed :
    (a : Association) (d : ChunkSelectiveAck) (p : Progress) (o : Result (Unit {0}))
    → point_of p ≡ own_point a
    → MovesTo a d
        (elim o as (λ _. Association × Result (Unit {0})) [
          | ok _ ↦ finish_sack p.assoc d p.bytes_acked p.htna
          | err e ↦ (p.assoc, err e)
          | panicked ↦ (p.assoc, panicked)
        ]).0
processed a d p (ok _) h = ground (arith, finish_sack-point p.assoc d p.bytes_acked p.htna, h)
processed a d p (err e) h = inl h
processed a d p panicked h = inl h

-- `handle_sack`, on every branch and whatever the SACK says: the cumulative TSN ack point stays, or
-- it moves to the SACK's cumulative TSN, which is then ahead of it in serial arithmetic.
pub handle_sack-point :
    (now : ℕ) (a : Association) (d : ChunkSelectiveAck)
    → ((handle_sack now a d).0.cumulative_tsn_ack_point ≡ a.cumulative_tsn_ack_point)
      ⊎ ((sna32lt a.cumulative_tsn_ack_point d.cumulative_tsn_ack ≡ true)
          × ((handle_sack now a d).0.cumulative_tsn_ack_point ≡ d.cumulative_tsn_ack))
unfolding handle_sack
handle_sack-point now a d = elim (Bool-cases (takes_sacks a.state)) [
  | inr e ↦ rw (e, handle_sack) (inl refl)
  | inl e ↦ elim (Bool-cases (sna32gt a.cumulative_tsn_ack_point d.cumulative_tsn_ack)) [
    | inl g ↦ rw (e, g, handle_sack) (inl refl)
    | inr g ↦
        rw (e, g, handle_sack)
          (processed a d (process_selective_ack now a d).0 (process_selective_ack now a d).1
            (process_selective_ack-point now a d))
  ]
]
