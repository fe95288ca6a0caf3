-- ===== src/Association/Send.antt =====
-- The sending half of src/association/association_internal.rs: pending chunks go in flight as the
-- two windows allow, lost ones go out again, and chunks are bundled into packets. Time is `now`. A
-- loop over consecutive TSNs in flight runs on the number of chunks there, one that pops pending
-- chunks on the number that wait. A packet is the list of its chunks.
pub mod Bundle
use sctp.Base.{
  ℕ, zero, suc, ◌+◌, ◌-◌, ◌%◌, ◌^◌, Bool, true, false, not, ◌&&◌, ◌||◌, List, [], ◌∷◌, ◌++◌, Option,
  none, some, if◌then◌else◌, length, ltb, leb, ◌==◌, add32, add64, sub32, min, is_empty,
}
use sctp.Base.Assoc.{lookup}
use sctp.Chunk.PayloadData.{
  ChunkPayloadData, PayloadProtocolIdentifier, set_abandoned, set_all_inflight, abandoned, Cells,
}
use sctp.Queue.Payload.{get_mut, push_no_check, get_num_bytes}
use sctp.Queue.Payload
use sctp.Queue.Pending.{PendingQueue, pop, peek}
use sctp.Queue.Pending
use sctp.Stream.{Stream, ReliabilityType, reliable, rexmit, timed, is_dcep}
use sctp.Association.Internal.{Association}

abbrev pub common_header_size : ℕ
common_header_size = 12

abbrev pub data_chunk_header_size : ℕ
data_chunk_header_size = 16

-- Whether a stream's limit on retransmissions or on lifetime is reached.
unfoldable pub is_over : ℕ → Stream → ChunkPayloadData → Bool
is_over now s c = elim s.reliability_type [
  | reliable ↦ false
  | rexmit ↦ leb s.reliability_value c.nsent
  | timed ↦ if ltb now c.since then false else leb s.reliability_value ((now - c.since) % 2 ^ 32)
]

unfoldable pub check_partial_reliability_status : ℕ → Association → ChunkPayloadData → Association
unfolding is_over
check_partial_reliability_status now a c =
    if not a.use_forward_tsn || is_dcep c.payload_type
    then a
    else elim (lookup c.stream_identifier a.streams) [
      | none ↦ a
      | some s ↦ if is_over now s c then record a { cells = set_abandoned a.cells c true } else a
    ]

unfoldable pub generate_next_tsn : Association → ℕ × Association
generate_next_tsn a = (a.my_next_tsn, record a { my_next_tsn = add32 a.my_next_tsn 1 })

-- A popped chunk gets its TSN and its time, and goes in flight.
unfoldable pub launch : ℕ → Association → ChunkPayloadData → ChunkPayloadData × Association
unfolding generate_next_tsn check_partial_reliability_status
launch now a c =
    let a1 = if c.ending_fragment then record a { cells = set_all_inflight a.cells c } else a in
    let (tsn, a2) = generate_next_tsn a1 in
    let c' = record c { tsn = tsn; since = now; nsent = 1 } in
    let a3 = check_partial_reliability_status now a2 c' in
    (c', record a3 { inflight_queue = push_no_check a3.inflight_queue c' })

unfoldable pub move_pending_data_chunk_to_inflight_queue :
    ℕ → Association → Bool → Bool → Option ChunkPayloadData × Association
unfolding launch
move_pending_data_chunk_to_inflight_queue now a beginning_fragment unordered =
    let (popped, q) = pop a.pending_queue beginning_fragment unordered in
    let a' = record a { pending_queue = q } in
    elim popped [ none ↦ (none, a') | some c ↦ let (c', a2) = launch now a' c in (some c', a2) ]

-- The chunks to send, the streams to reset, and the association.
pub record Popped : Type 0 where
  pub chunks : List ChunkPayloadData
  pub sis_to_reset : List ℕ
  pub assoc : Association

abbrev pub add_chunk : Option ChunkPayloadData → List ChunkPayloadData → List ChunkPayloadData
add_chunk none cs = cs
add_chunk (some c) cs = cs ++ c ∷ []

-- The loop `while let Some(c) = self.pending_queue.peek()`, on fuel.
unfoldable pub pop_pending_loop : ℕ → ℕ → Popped → Popped
unfolding move_pending_data_chunk_to_inflight_queue
pop_pending_loop zero now r = r
pop_pending_loop (suc fuel) now r =
    let a = r.assoc in
    elim (peek a.pending_queue) [
      | none ↦ r
      | some c ↦
          let data_len = length c.user_data in
          elim (data_len == 0) [
            | true ↦ pop_pending_loop fuel now (record r {
              sis_to_reset = r.sis_to_reset ++ c.stream_identifier ∷ [];
              assoc = record a {
                pending_queue = (pop a.pending_queue c.beginning_fragment c.unordered).1;
              };
            })
            | false ↦
                elim (ltb a.cwnd (add64 (get_num_bytes a.inflight_queue) data_len)
                  || ltb a.rwnd data_len) [
                    | true ↦ r
                    | false ↦
                        let (moved, a') =
                          move_pending_data_chunk_to_inflight_queue now
                            (record a { rwnd = a.rwnd - data_len }) c.beginning_fragment
                            c.unordered in
                        pop_pending_loop fuel now
                          (record r { chunks = add_chunk moved r.chunks; assoc = a' })
                  ]
          ]
    ]

-- With nothing sent and nothing in flight, one chunk goes out whatever the windows say.
unfoldable pub zero_window_probe : ℕ → Popped → Popped
unfolding move_pending_data_chunk_to_inflight_queue
zero_window_probe now r = elim (peek r.assoc.pending_queue) [
  | none ↦ r
  | some c ↦
      let (moved, a') =
        move_pending_data_chunk_to_inflight_queue now r.assoc c.beginning_fragment c.unordered in
      record r { chunks = add_chunk moved r.chunks; assoc = a' }
]

unfoldable pub pop_pending_data_chunks_to_send : ℕ → Association → Popped
unfolding pop_pending_loop zero_window_probe
pop_pending_data_chunks_to_send now a =
    let waiting = length a.pending_queue.unordered_queue + length a.pending_queue.ordered_queue in
    let start : Popped = record { chunks = []; sis_to_reset = []; assoc = a } in
    let r = pop_pending_loop (waiting + 1) now start in
    if Pending.len a.pending_queue == 0
    then start
    else if is_empty r.chunks && Payload.is_empty r.assoc.inflight_queue
    then zero_window_probe now r
    else r

-- The loop of `bundle_data_chunks_into_packets`: the packet under way and its size, a `u32`.
unfoldable pub bundle_loop :
    ℕ → List ChunkPayloadData → ℕ → List ChunkPayloadData → List (List ChunkPayloadData)
bundle_loop mtu to_send bytes_in_packet [] = if is_empty to_send then [] else to_send ∷ []
bundle_loop mtu to_send bytes_in_packet (c ∷ cs) =
    let n = length c.user_data % 2 ^ 32 in
    let size = add32 data_chunk_header_size n in
    let full = bundle_loop mtu (c ∷ []) (add32 common_header_size size) cs in
    let grown = bundle_loop mtu (to_send ++ c ∷ []) (add32 bytes_in_packet size) cs in
    if ltb mtu (add32 bytes_in_packet n) then to_send ∷ full else grown

unfoldable pub bundle_data_chunks_into_packets :
    Association → List ChunkPayloadData → List (List ChunkPayloadData)
unfolding bundle_loop
bundle_data_chunks_into_packets a chunks = bundle_loop a.mtu [] common_header_size chunks

-- A chunk sent once more.
unfoldable pub sent_again : ChunkPayloadData → ChunkPayloadData
sent_again c = record c { retransmit = false; nsent = add32 c.nsent 1 }

-- A chunk in flight is changed in place, then its limits are checked.
unfoldable pub resend :
    ℕ → (ChunkPayloadData → ChunkPayloadData) → ℕ → ChunkPayloadData → Association → Association
unfolding check_partial_reliability_status
resend now f tsn c a =
    check_partial_reliability_status now
      (record a { inflight_queue = get_mut a.inflight_queue tsn f }) (f c)

-- The loop of `get_data_packets_to_retransmit` from index `i`, on fuel.
unfoldable pub retransmit_loop :
    ℕ → ℕ → ℕ → ℕ → ℕ → List ChunkPayloadData → Association → List ChunkPayloadData × Association
unfolding resend sent_again
retransmit_loop zero now awnd i bytes_to_send chunks a = (chunks, a)
retransmit_loop (suc fuel) now awnd i bytes_to_send chunks a =
    let tsn = add32 (add32 a.cumulative_tsn_ack_point i) 1 in
    elim (Payload.get a.inflight_queue tsn) [
      | none ↦ (chunks, a)
      | some c ↦
          let n = length c.user_data in
          let a' = resend now sent_again tsn c a in
          let chunks' = chunks ++ sent_again c ∷ [] in
          elim c.retransmit [
            | false ↦ retransmit_loop fuel now awnd (i + 1) bytes_to_send chunks a
            | true ↦ elim ((i == 0) && ltb a.rwnd n) [
              | true ↦ (chunks', a')
              | false ↦ elim (ltb awnd (bytes_to_send + n)) [
                | true ↦ (chunks, a)
                | false ↦ retransmit_loop fuel now awnd (i + 1) (bytes_to_send + n) chunks' a'
              ]
            ]
          ]
    ]

unfoldable pub get_data_packets_to_retransmit :
    ℕ → Association → List (List ChunkPayloadData) × Association
unfolding retransmit_loop bundle_data_chunks_into_packets
get_data_packets_to_retransmit now a =
    let (chunks, a') =
      retransmit_loop (Payload.len a.inflight_queue) now (min a.cwnd a.rwnd) 0 0 [] a in
    (bundle_data_chunks_into_packets a' chunks, a')

unfoldable pub count_sent : ChunkPayloadData → ChunkPayloadData
count_sent c = record c { nsent = add32 c.nsent 1 }

-- The loop of `gather_outbound_fast_retransmission_packets`, on fuel: one packet at most.
unfoldable pub fast_loop :
    ℕ → ℕ → ℕ → ℕ → List ChunkPayloadData → Association → List ChunkPayloadData × Association
unfolding resend count_sent
fast_loop zero now i size chunks a = (chunks, a)
fast_loop (suc fuel) now i size chunks a =
    let tsn = add32 (add32 a.cumulative_tsn_ack_point i) 1 in
    elim (Payload.get a.inflight_queue tsn) [
      | none ↦ (chunks, a)
      | some c ↦
          let data_chunk_size = add32 data_chunk_header_size (length c.user_data % 2 ^ 32) in
          elim (c.acked || abandoned a.cells c || ltb 1 c.nsent || ltb c.miss_indicator 3) [
            | true ↦ fast_loop fuel now (i + 1) size chunks a
            | false ↦ elim (ltb a.mtu (add32 size data_chunk_size)) [
              | true ↦ (chunks, a)
              | false ↦
                  fast_loop fuel now (i + 1) (add32 size data_chunk_size)
                    (chunks ++ count_sent c ∷ []) (resend now count_sent tsn c a)
            ]
          ]
    ]

unfoldable pub gather_outbound_fast_retransmission_packets :
    ℕ → Association → List ChunkPayloadData × Association
unfolding fast_loop
gather_outbound_fast_retransmission_packets now a =
    if a.will_retransmit_fast
    then fast_loop (Payload.len a.inflight_queue) now 0 common_header_size []
        (record a { will_retransmit_fast = false })
    else ([], a)
