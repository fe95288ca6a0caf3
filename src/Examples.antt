-- ===== src/Examples.antt =====
-- Chunks and states for the tests and examples in the modules below.
mod Queues
mod Reassembly
mod Endpoint
mod Codec
mod Datagrams
mod Handshake
mod Sending
use sctp.Base.{ℕ, Bool, true, false, List, [], ◌∷◌, Option, none, some}
use sctp.Chunk.PayloadData.{ChunkPayloadData, binary}
use sctp.Queue.Payload.{PayloadQueue}
use sctp.Queue.Pending.{PendingQueue}
use sctp.Queue.Reassembly.{ReassemblyQueue}
use sctp.Stream.{Stream, Shared, fragment, reliable}
use sctp.Association.State.{AssociationState, established}
use sctp.Association.Internal.{Association, idle, normal}

-- A fragment of stream 1: its TSN, stream sequence number, class, flags and data.
abbrev pub chunk : ℕ → ℕ → Bool → Bool → Bool → List ℕ → ChunkPayloadData
chunk tsn ssn unordered b e bytes = record (fragment 1 ssn binary unordered bytes b e 0 1) {
  tsn = tsn;
}

abbrev pub first_half : ChunkPayloadData
first_half = chunk 4294967295 7 false true false (1 ∷ 2 ∷ [])

abbrev pub second_half : ChunkPayloadData
second_half = chunk 0 7 false false true (3 ∷ [])

abbrev pub loose : ChunkPayloadData
loose = chunk 5 0 true true true (9 ∷ [])

abbrev pub empty_reassembly : ReassemblyQueue
empty_reassembly = record {
  si = 1;
  next_ssn = 7;
  ordered = [];
  unordered = [];
  unordered_chunks = [];
  n_bytes = 0;
}

-- A set of both halves, complete.
abbrev pub full_reassembly : ReassemblyQueue
full_reassembly = record empty_reassembly {
  ordered = record { ssn = 7; ppi = binary; chunks = first_half ∷ second_half ∷ [] } ∷ [];
  n_bytes = 3;
}

abbrev pub half_reassembly : ReassemblyQueue
half_reassembly = record empty_reassembly {
  ordered = record { ssn = 7; ppi = binary; chunks = first_half ∷ [] } ∷ [];
  n_bytes = 2;
}

-- An unordered message whose last fragment is still missing.
abbrev pub loose_reassembly : ReassemblyQueue
loose_reassembly = record empty_reassembly {
  unordered_chunks = chunk 3 0 true true false (8 ∷ []) ∷ [];
  n_bytes = 1;
}

abbrev pub empty_pending : PendingQueue
empty_pending = record {
  unordered_queue = [];
  ordered_queue = [];
  queue_len = 0;
  n_bytes = 0;
  selected = false;
  unordered_is_selected = false;
}

abbrev pub full_pending : PendingQueue
full_pending = record empty_pending {
  unordered_queue = loose ∷ [];
  ordered_queue = first_half ∷ second_half ∷ [];
  queue_len = 3;
  n_bytes = 4;
}

-- TSNs 11 and 13.
abbrev pub gapped_queue : PayloadQueue
gapped_queue = record {
  length_shared = 2;
  chunk_map =
      (11, chunk 11 0 false true true (4 ∷ 5 ∷ []))
      ∷ (13, chunk 13 1 false true true (6 ∷ []))
      ∷ [];
  sorted = 11 ∷ 13 ∷ [];
  dup_tsn = [];
  n_bytes = 3;
}

-- TSNs 4294967295 and 1, in serial order.
abbrev pub wrapped_queue : PayloadQueue
wrapped_queue = record {
  length_shared = 2;
  chunk_map =
      (4294967295, chunk 4294967295 0 false true true (4 ∷ []))
      ∷ (1, chunk 1 1 false true true (6 ∷ []))
      ∷ [];
  sorted = 4294967295 ∷ 1 ∷ [];
  dup_tsn = [];
  n_bytes = 2;
}

abbrev pub stream : Stream
stream = record {
  max_payload_size = 2;
  stream_identifier = 1;
  default_payload_type = 53;
  reassembly_queue = empty_reassembly;
  sequence_number = 65535;
  read_shutdown = false;
  write_shutdown = false;
  unordered = false;
  reliability_type = reliable;
  reliability_value = 0;
  buffered_amount = 0;
  buffered_amount_low = 0;
}

abbrev pub shared : Shared
shared = record {
  max_message_size = 100;
  state = established;
  pending_queue = empty_pending;
  cells = λ _. false;
  next_cell = 2;
}

abbrev pub association : Association
association = record {
  state = established;
  my_next_tsn = 14;
  peer_last_tsn = 10;
  min_tsn2measure_rtt = 0;
  will_send_forward_tsn = false;
  will_retransmit_fast = false;
  will_retransmit_reconfig = false;
  will_send_shutdown = false;
  will_send_shutdown_ack = false;
  will_send_shutdown_complete = false;
  reconfig_requests = [];
  payload_queue = gapped_queue;
  inflight_queue = gapped_queue;
  pending_queue = full_pending;
  cells = λ _. false;
  mtu = 1228;
  max_payload_size = 1200;
  cumulative_tsn_ack_point = 10;
  advanced_peer_tsn_ack_point = 10;
  use_forward_tsn = true;
  max_receive_buffer_size = 1000;
  cwnd = 4380;
  rwnd = 1000;
  ssthresh = 8000;
  partial_bytes_acked = 0;
  in_fast_recovery = false;
  fast_recover_exit_point = 0;
  t1init = false;
  t1cookie = false;
  t2shutdown = false;
  t3rtx = true;
  ack_timer = record { close_tx = false; has_task = false };
  streams = (1, stream) ∷ [];
  unregistered = [];
  accept_room = 16;
  delayed_ack_triggered = false;
  immediate_ack_triggered = false;
  ack_state = idle;
  ack_mode = normal;
  awakened = false;
  measured_rtts = [];
  treconfig = false;
  peer_verification_tag = 7;
  my_verification_tag = 9;
  my_next_rsn = 14;
  my_max_num_inbound_streams = 65535;
  my_max_num_outbound_streams = 65535;
  my_cookie = none;
  source_port = 5000;
  destination_port = 5000;
  max_message_size = 65536;
  stored_init = none;
  stored_cookie_echo = none;
  control_queue = [];
  reconfigs = [];
  handshake_completed = [];
}
