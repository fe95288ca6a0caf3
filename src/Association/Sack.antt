-- ===== src/Association/Sack.antt =====
-- `handle_sack` of src/association/association_internal.rs and what it calls: acknowledged chunks
-- leave the in-flight queue, the congestion window moves, and lost chunks are marked. Time is a
-- parameter, `now`. A loop over TSNs runs on the steps that lead to its bound, modulo 2^32. An
-- error keeps the state that was reached.
pub mod Window
pub mod Bytes
pub mod Handle
use sctp.Base.{
  ℕ, zero, suc, ◌+◌, ◌-◌, ◌*◌, ◌/◌, Bool, true, false, not, ◌&&◌, ◌||◌, List, [], ◌∷◌, ◌++◌, Option,
  none, some, if◌then◌else◌, length, ltb, leb, ◌==◌, add32, sub32, min, max, ◌%◌, ◌^◌,
}
use sctp.Base.Assoc.{lookup, insert, modify}
use sctp.Base.Sort.{total}
use sctp.Error.{
  Result, ok, err, panicked, Error, err_invalid_system_time, err_inflight_queue_tsn_pop,
  err_tsn_request_not_exist,
}
use sctp.Sna.{sna32lt, sna32lte, sna32gt, sna32gte}
use sctp.Chunk.PayloadData.{ChunkPayloadData, abandoned}
use sctp.Queue.Payload.{PayloadQueue, GapAckBlock, get_mut, mark_as_acked}
use sctp.Queue.Payload
use sctp.Queue.Pending
use sctp.Stream.{Stream, on_buffer_released}
use sctp.Association.State.{
  AssociationState, established, shutdown_pending, shutdown_received, shutdown_sent,
  shutdown_ack_sent, same_state,
}
use sctp.Association.Internal.{Association, ChunkSelectiveAck, set_state, awake_write_loop}

-- The bytes acknowledged for each stream; a stream not seen yet is added.
abbrev pub BytesAcked : Type 0
BytesAcked = List (ℕ × ℕ)

-- What the loops of `process_selective_ack` carry, and how they end.
pub record Progress : Type 0 where
  pub assoc : Association
  pub bytes_acked : BytesAcked
  pub htna : ℕ

abbrev pub Outcome : Type 0
Outcome = Progress × Result (Unit {0})

-- Go on unless an error was met: `?` and the early returns.
abbrev pub and_then {ℓ} :
    {P : Type ℓ} → P × Result (Unit {0}) → (P → P × Result (Unit {0})) → P × Result (Unit {0})
and_then (p, ok _) f = f p
and_then (p, err e) f = (p, err e)
and_then (p, panicked) f = (p, panicked)

unfoldable pub add_bytes : ℕ → ℕ → BytesAcked → BytesAcked
add_bytes si n m = elim (lookup si m) [ none ↦ insert si n m | some k ↦ insert si (k + n) m ]

-- `min_tsn2measure_rtt = my_next_tsn`, and the time since a chunk was sent.
unfoldable pub measure_rtt : ℕ → Association → ChunkPayloadData → Association × Result (Unit {0})
measure_rtt now a c =
    let a' = record a { min_tsn2measure_rtt = a.my_next_tsn } in
    if ltb now c.since
    then (a', err err_invalid_system_time)
    else (record a' { measured_rtts = a.measured_rtts ++ (now - c.since) ∷ [] }, ok tt)

-- What is done with a chunk popped at `i` before the fast-recovery test.
-- What is done with a chunk popped at `i` before the fast-recovery test.
unfoldable pub ack_popped : ℕ → ℕ → Progress → ChunkPayloadData → Outcome
unfolding add_bytes measure_rtt
ack_popped now i p c =
    let a = p.assoc in
    let a1 = if i == add32 a.cumulative_tsn_ack_point 1 then record a { t3rtx = false } else a in
    let p1 = record p {
      assoc = a1;
      bytes_acked = add_bytes c.stream_identifier (length c.user_data) p.bytes_acked;
    } in
    let (a2, outcome) = measure_rtt now a1 c in
    if c.acked
    then (p, ok tt)
    else if c.nsent == 1 && sna32gte c.tsn a.min_tsn2measure_rtt
    then (record p1 { assoc = a2 }, outcome)
    else (p1, ok tt)

unfoldable pub leave_fast_recovery : ChunkPayloadData → Progress → Progress
leave_fast_recovery c p =
    if p.assoc.in_fast_recovery && (c.tsn == p.assoc.fast_recover_exit_point)
    then record p { assoc = record (p.assoc) { in_fast_recovery = false } }
    else p

-- One round of the first loop: pop the chunk at `i`.
unfoldable pub pop_acked : ℕ → ℕ → Progress → Outcome
unfolding ack_popped leave_fast_recovery
pop_acked now i p =
    let (popped, q) = Payload.pop p.assoc.inflight_queue i in
    let p' = record p { assoc = record (p.assoc) { inflight_queue = q } } in
    elim popped [
      | none ↦ (p', err err_inflight_queue_tsn_pop)
      | some c ↦ and_then (ack_popped now i p' c) (λ r. (leave_fast_recovery c r, ok tt))
    ]

-- `while sna32lte(i, cumulative_tsn_ack)`, on fuel.
unfoldable pub pop_loop : ℕ → ℕ → ℕ → ℕ → Progress → Outcome
unfolding pop_acked
pop_loop zero now cum i p = (p, ok tt)
pop_loop (suc fuel) now cum i p = elim (sna32lte i cum) [
  | false ↦ (p, ok tt)
  | true ↦ and_then (pop_acked now i p) (pop_loop fuel now cum (add32 i 1))
]

-- One TSN of a gap-ack block.
unfoldable pub gap_acked : ℕ → ℕ → Progress → Outcome
unfolding add_bytes measure_rtt
gap_acked now tsn p =
    let a = p.assoc in
    let (n, q) = mark_as_acked a.inflight_queue tsn in
    let a1 = record a { inflight_queue = q } in
    elim (Payload.get a.inflight_queue tsn) [
      | none ↦ (p, err err_tsn_request_not_exist)
      | some c ↦
          let p1 = record p {
            assoc = a1;
            bytes_acked = add_bytes c.stream_identifier n p.bytes_acked;
          } in
          let (a2, outcome) = measure_rtt now a1 c in
          let measured =
            if c.nsent == 1 then (record p1 { assoc = a2 }, outcome) else (p1, ok tt) in
          if c.acked
          then (p, ok tt)
          else and_then measured
              (λ r. (record r { htna = if sna32lt p.htna tsn then tsn else p.htna }, ok tt))
    ]

-- `for i in g.start..=g.end`: `n` rounds from `i`.
unfoldable pub block_loop : ℕ → ℕ → ℕ → ℕ → Progress → Outcome
unfolding gap_acked
block_loop zero now cum i p = (p, ok tt)
block_loop (suc n) now cum i p =
    and_then (gap_acked now (add32 cum i) p) (block_loop n now cum (i + 1))

unfoldable pub blocks_loop : ℕ → ℕ → List GapAckBlock → Progress → Outcome
unfolding block_loop
blocks_loop now cum [] p = (p, ok tt)
blocks_loop now cum (g ∷ gs) p =
    and_then (block_loop (g.finish + 1 - g.start) now cum g.start p) (blocks_loop now cum gs)

unfoldable pub process_selective_ack : ℕ → Association → ChunkSelectiveAck → Outcome
unfolding pop_loop blocks_loop
process_selective_ack now a d =
    let cum = d.cumulative_tsn_ack in
    let i = add32 a.cumulative_tsn_ack_point 1 in
    and_then
      (pop_loop (sub32 (add32 cum 1) i) now cum i
        (record { assoc = a; bytes_acked = []; htna = cum }))
      (blocks_loop now cum d.gap_ack_blocks)

-- Slow start, or congestion avoidance; `total_bytes_acked as u32` is taken modulo 2^32.
unfoldable pub grow_cwnd : Association → ℕ → Association
grow_cwnd a total_bytes_acked =
    let pending = ltb 0 (Pending.len a.pending_queue) in
    let acked = total_bytes_acked % 2 ^ 32 in
    let partial = add32 a.partial_bytes_acked acked in
    if leb a.cwnd a.ssthresh
    then if not a.in_fast_recovery && pending
      then record a { cwnd = add32 a.cwnd (min acked a.cwnd) }
      else a
    else if leb a.cwnd partial && pending
    then record a { partial_bytes_acked = partial - a.cwnd; cwnd = add32 a.cwnd a.mtu }
    else record a { partial_bytes_acked = partial }

unfoldable pub on_cumulative_tsn_ack_point_advanced : Association → ℕ → Association
unfolding grow_cwnd
on_cumulative_tsn_ack_point_advanced a total_bytes_acked =
    grow_cwnd (record a { t3rtx = not (Payload.is_empty a.inflight_queue) }) total_bytes_acked

-- The third report that a chunk is missing starts fast recovery.
unfoldable pub enter_fast_recovery : Association → ℕ → Association
enter_fast_recovery a htna =
    let half = max (a.cwnd / 2) ((4 * a.mtu) % 2 ^ 32) in
    record a {
      in_fast_recovery = true;
      fast_recover_exit_point = htna;
      ssthresh = half;
      cwnd = half;
      partial_bytes_acked = 0;
      will_retransmit_fast = true;
    }

unfoldable pub miss : ChunkPayloadData → ChunkPayloadData
miss c = record c { miss_indicator = c.miss_indicator + 1 }

-- One round of the marking loop.
unfoldable pub mark_missing : ℕ → ℕ → Association → Association × Result (Unit {0})
unfolding enter_fast_recovery miss
mark_missing htna tsn a =
    let a' = record a { inflight_queue = get_mut a.inflight_queue tsn miss } in
    elim (Payload.get a.inflight_queue tsn) [
      | none ↦ (a, err err_tsn_request_not_exist)
      | some c ↦ (
        if not c.acked && not (abandoned a.cells c) && ltb c.miss_indicator 3
            then if (c.miss_indicator + 1 == 3) && not a.in_fast_recovery
              then enter_fast_recovery a' htna
              else a'
            else a,
        ok tt,
      )
    ]

-- `while sna32lt(tsn, max_tsn)`, on fuel.
unfoldable pub mark_loop : ℕ → ℕ → ℕ → ℕ → Association → Association × Result (Unit {0})
unfolding mark_missing
mark_loop zero htna max_tsn tsn a = (a, ok tt)
mark_loop (suc fuel) htna max_tsn tsn a = elim (sna32lt tsn max_tsn) [
  | false ↦ (a, ok tt)
  | true ↦ and_then (mark_missing htna tsn a) (mark_loop fuel htna max_tsn (add32 tsn 1))
]

-- The last lines: every advance in fast recovery asks for a fast retransmission.
unfoldable pub ask_retransmit : Bool → Association → Association
ask_retransmit advanced a =
    if a.in_fast_recovery && advanced then record a { will_retransmit_fast = true } else a

unfoldable pub process_fast_retransmission :
    Association → ℕ → ℕ → Bool → Association × Result (Unit {0})
unfolding mark_loop ask_retransmit
process_fast_retransmission a cum htna advanced =
    let max_tsn =
      if not a.in_fast_recovery then htna else add32 (add32 cum (Payload.len a.inflight_queue)) 1 in
    let tsn = add32 cum 1 in
    if not a.in_fast_recovery || advanced
    then and_then (mark_loop (sub32 max_tsn tsn) htna max_tsn tsn a)
        (λ a'. (ask_retransmit advanced a', ok tt))
    else (ask_retransmit advanced a, ok tt)
