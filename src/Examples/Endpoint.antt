-- ===== src/Examples/Endpoint.antt =====
-- The properties of streams and of the association, at concrete inputs.
use sctp.Base.{
  ℕ, ◌+◌, ◌≤◌, ◌<◌, ◌≡◌, ◌≢◌, ◌⊎◌, refl, true, false, not, List, [], ◌∷◌, ◌++◌, none, some, arith,
  All, min,
}
use sctp.Base.Assoc.{contains_key}
use sctp.Error.{
  ok, err, err_stream_closed, err_outbound_packet_too_large, err_payload_data_state_not_exist,
}
use sctp.Chunk.PayloadData.{ChunkPayloadData, binary}
use sctp.Queue.Payload
use sctp.Queue.Payload.Accounting.{IsConsistent}
use sctp.Queue.Pending
use sctp.Queue.Pending.Order.{IsWhole}
use sctp.Queue.Pending.Push.{queue_of}
use sctp.Queue.Reassembly.Fragments.{is_complete}
use sctp.Queue.Reassembly.Bytes.{payload}
use sctp.Stream.{Shared, is_shutting_down, packetize, write_sctp, count_message, new_flags}
use sctp.Stream.Packetize.{IsCut, goes_unordered, packetize_lem}
use sctp.Stream.Write.{write_sctp-IsWhole, IsOpen, write_sctp-ends}
use sctp.Stream.RoundTrip.{numbered, packetize-is_complete}
use sctp.Timer.Ack as Ack
use sctp.Association.State.{closed, established}
use sctp.Queue.Pending.{push_all}
use sctp.Association.Internal.{Association, ChunkSelectiveAck, normal, idle, delay}
use sctp.Association.Sack.{process_selective_ack, process_fast_retransmission, grow_cwnd}
use sctp.Association.Sack.Window.{
  KeepsOrHalves, process_fast_retransmission-window, grow_cwnd-bounds,
}
use sctp.Association.Sack.Bytes.{IsBalanced, process_selective_ack-IsBalanced}
use sctp.Association.Sack.Handle.{handle_sack, skip_abandoned}
use sctp.Association.Sack.Handle.Monotone.{handle_sack-point}
use sctp.Association.Sack.Handle.Forward.{Skips, Stops, skip_abandoned-Stops}
use sctp.Sna.{sna32lt}
use sctp.Association.Receive.{
  handle_peer_last_tsn_and_acknowledgement, trigger_ack, handle_chunk_start, handle_chunk_end,
}
use sctp.Association.Receive.CumulativeTsn.{IsCaughtUp, handle_peer_last_tsn-IsCaughtUp}
use sctp.Association.Receive.Acks.{next_ack, trigger_ack_lem}
use sctp.Association.Teardown.{shutdown, handle_shutdown_ack}
use sctp.Association.Teardown.Order.{
  on_shutdown, on_shutdown_ack, here, step, rank, IsDue, Steps-Advances,
}
use sctp.Association.Send.{bundle_data_chunks_into_packets, data_chunk_header_size}
use sctp.Association.Send.Bundle.{concat, packet_size, bundle_lem}
use sctp.Examples.{
  first_half, second_half, loose, stream, shared, association, gapped_queue, empty_pending,
}

packetize_lem_example :
    (cs : List ChunkPayloadData) × (packetize stream shared (1 ∷ 2 ∷ 3 ∷ []) binary
      ≡ some (cs, count_message stream (goes_unordered stream binary) 3, new_flags shared))
    × IsCut stream binary (goes_unordered stream binary) 2 true (1 ∷ 2 ∷ 3 ∷ []) cs
packetize_lem_example = packetize_lem stream shared (1 ∷ 2 ∷ 3 ∷ []) binary (omega arith)

packetize-is_complete_example :
    (cs : List ChunkPayloadData) × (packetize stream shared (1 ∷ 2 ∷ 3 ∷ []) binary
      ≡ some (cs, count_message stream (goes_unordered stream binary) 3, new_flags shared))
    × (is_complete (record { ssn = 65535; ppi = binary; chunks = numbered 4294967295 cs }) ≡ true)
    × (payload (numbered 4294967295 cs) ≡ 1 ∷ 2 ∷ 3 ∷ [])
packetize-is_complete_example =
    packetize-is_complete stream shared (1 ∷ 2 ∷ 3 ∷ []) binary 4294967295 65535 (omega arith)
      (omega arith)

empty_pending-IsWhole : IsWhole none empty_pending
empty_pending-IsWhole = record {
  selected_open = refl;
  unordered_class = tt;
  ordered_class = tt;
  unordered_messages = tt;
  ordered_messages = tt;
}

write_sctp-IsWhole_example :
    (cs : List ChunkPayloadData) × (h' : Shared) × (write_sctp stream shared (1 ∷ 2 ∷ 3 ∷ []) binary
      ≡ some (count_message stream (goes_unordered stream binary) 3, h', ok 3))
    × (queue_of (goes_unordered stream binary) h'.pending_queue
        ≡ queue_of (goes_unordered stream binary) empty_pending ++ cs)
    × (payload cs ≡ 1 ∷ 2 ∷ 3 ∷ [])
    × IsWhole none h'.pending_queue
write_sctp-IsWhole_example =
    write_sctp-IsWhole stream shared (1 ∷ 2 ∷ 3 ∷ []) binary none (omega arith)
      (record { still_writing = refl; not_too_large = omega arith; is_established = refl })
      empty_pending-IsWhole refl

abbrev not_connected : Shared
not_connected = record shared { state = closed }

write_sctp-ends_example :
    ((stream.write_shutdown ≡ true)
      × (write_sctp stream not_connected (1 ∷ []) binary
          ≡ some (stream, not_connected, err err_stream_closed)))
    ⊎ ((stream.write_shutdown ≡ false)
        × (not_connected.max_message_size < 1)
        × (write_sctp stream not_connected (1 ∷ []) binary
            ≡ some (stream, not_connected, err err_outbound_packet_too_large)))
    ⊎ ((stream.write_shutdown ≡ false)
        × (1 ≤ not_connected.max_message_size)
        × (is_shutting_down not_connected.state ≡ true)
        × (write_sctp stream not_connected (1 ∷ []) binary
            ≡ some (stream, not_connected, err err_stream_closed)))
    ⊎ (IsOpen stream not_connected (1 ∷ [])
        × ((cs : List ChunkPayloadData) × (write_sctp stream not_connected (1 ∷ []) binary
              ≡ some (
                count_message stream (goes_unordered stream binary) 1,
                record (new_flags not_connected) {
                  pending_queue = push_all not_connected.pending_queue cs;
                },
                ok 1,
              ))
            × (payload cs ≡ 1 ∷ [])))
    ⊎ ((stream.write_shutdown ≡ false)
        × (1 ≤ not_connected.max_message_size)
        × (is_shutting_down not_connected.state ≡ false)
        × (not_connected.state ≢ established)
        × (write_sctp stream not_connected (1 ∷ []) binary
            ≡ some (
              count_message stream (goes_unordered stream binary) 1,
              new_flags not_connected,
              err err_payload_data_state_not_exist,
            )))
write_sctp-ends_example = write_sctp-ends stream not_connected (1 ∷ []) binary (omega arith)

gapped_queue-IsConsistent : IsConsistent gapped_queue
unfolding contains_key
gapped_queue-IsConsistent = record {
  indexed = λ k. ground arith;
  keyed = λ k. ground arith;
  bytes_counted = refl;
  chunks_counted = refl;
}

-- TSN 11 cumulatively, 13 by a gap-ack block.
abbrev sack : ChunkSelectiveAck
sack = record {
  cumulative_tsn_ack = 11;
  advertised_receiver_window_credit = 500;
  gap_ack_blocks = record { start = 2; finish = 2 } ∷ [];
  duplicate_tsn = [];
}

process_selective_ack-IsBalanced_example :
    IsBalanced 3 (process_selective_ack 100 association sack).0
process_selective_ack-IsBalanced_example =
    process_selective_ack-IsBalanced 100 association sack gapped_queue-IsConsistent
      ((λ e. cc), ((λ e. cc), tt))

process_fast_retransmission-window_example :
    KeepsOrHalves association (process_fast_retransmission association 10 13 false).0 13
process_fast_retransmission-window_example =
    process_fast_retransmission-window association 10 13 false

grow_cwnd-bounds_example :
    (4380 ≤ (grow_cwnd association 1200).cwnd)
    × (4380 ≤ 8000 → (grow_cwnd association 1200).cwnd ≤ 4380 + min 1200 4380)
    × (8000 < 4380 → (grow_cwnd association 1200).cwnd ≤ 4380 + 1228)
    × (Pending.len association.pending_queue ≡ 0 → (grow_cwnd association 1200).cwnd ≡ 4380)
grow_cwnd-bounds_example = grow_cwnd-bounds association 1200 (omega arith) (omega arith)

handle_peer_last_tsn-IsCaughtUp_example :
    IsCaughtUp (handle_peer_last_tsn_and_acknowledgement association false).1
handle_peer_last_tsn-IsCaughtUp_example =
    handle_peer_last_tsn-IsCaughtUp association false gapped_queue-IsConsistent

trigger_ack_lem_example :
    ((handle_chunk_end (trigger_ack (handle_chunk_start association) false)).ack_state
      ≡ next_ack normal idle false (not (Payload.is_empty gapped_queue)))
    × ((handle_chunk_end (trigger_ack (handle_chunk_start association) false)).ack_timer
        ≡ elim (next_ack normal idle false (not (Payload.is_empty gapped_queue))) [
          | delay ↦ (Ack.start association.ack_timer).1
          | _ ↦ Ack.stop association.ack_timer
        ])
trigger_ack_lem_example = trigger_ack_lem association false

Steps-Advances_example :
    (rank association.state ≤ rank (handle_shutdown_ack (shutdown association).0).state)
    × (IsDue association → IsDue (handle_shutdown_ack (shutdown association).0))
Steps-Advances_example = Steps-Advances (
    step association (shutdown association).0 (handle_shutdown_ack (shutdown association).0)
      (on_shutdown association)
      (step (shutdown association).0 (handle_shutdown_ack (shutdown association).0)
        (handle_shutdown_ack (shutdown association).0) (on_shutdown_ack (shutdown association).0)
        (here (handle_shutdown_ack (shutdown association).0))))

bundle_lem_example :
    (concat (bundle_data_chunks_into_packets association (first_half ∷ second_half ∷ loose ∷ []))
      ≡ first_half ∷ second_half ∷ loose ∷ [])
    × All
        (λ q. packet_size q ≤ 1228 + data_chunk_header_size)
        (bundle_data_chunks_into_packets association (first_half ∷ second_half ∷ loose ∷ []))
bundle_lem_example =
    bundle_lem association (first_half ∷ second_half ∷ loose ∷ [])
      (omega arith, (omega arith, (omega arith, tt))) (omega arith) (omega arith)

handle_sack-point_example :
    ((handle_sack 100 association sack).0.cumulative_tsn_ack_point ≡ 10)
    ⊎ ((sna32lt 10 11 ≡ true)
        × ((handle_sack 100 association sack).0.cumulative_tsn_ack_point ≡ 11))
handle_sack-point_example = handle_sack-point 100 association sack

-- All chunks of the association are abandoned.
abbrev all_abandoned : Association
all_abandoned = record association { cells = λ _. true }

skip_abandoned-Stops_example :
    (n : ℕ) × Skips all_abandoned 10 n (skip_abandoned (Payload.len gapped_queue) all_abandoned 10)
    × Stops all_abandoned (skip_abandoned (Payload.len gapped_queue) all_abandoned 10)
unfolding Payload.len
skip_abandoned-Stops_example = skip_abandoned-Stops all_abandoned 10 (omega arith) (omega arith)
