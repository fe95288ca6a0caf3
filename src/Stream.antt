-- ===== src/Stream.antt =====
-- src/stream/mod.rs: one stream of an association. What the stream shares with the association
-- (the `Arc`s of the source) is a `Shared` value; a method takes it and returns it. The handler of
-- `on_buffered_amount_low` and the notifications are results.
pub mod Packetize
pub mod Write
pub mod RoundTrip
use sctp.Base.{
  ℕ, zero, suc, ◌+◌, ◌-◌, Bool, true, false, not, ◌&&◌, ◌||◌, List, [], ◌∷◌, ◌++◌, Option, none,
  some, if◌then◌else◌, length, take, drop, min, ltb, leb, ◌==◌, add16, add64,
}
use sctp.Error.{
  Result, ok, err, panicked, Error, err_stream_closed, err_outbound_packet_too_large,
  err_payload_data_state_not_exist, err_reset_packet_in_state_not_exist, err_short_buffer,
}
use sctp.Association.State.{
  AssociationState, established, shutdown_sent, shutdown_ack_sent, shutdown_pending,
  shutdown_received, same_state,
}
use sctp.Chunk.PayloadData.{
  ChunkPayloadData, PayloadProtocolIdentifier, dcep, unknown, to_u32, from_u32, Cells, store,
}
use sctp.Queue.Pending.{PendingQueue}
use sctp.Queue.Pending
use sctp.Queue.Reassembly.{
  ReassemblyQueue, ReadResult, is_readable, forward_tsn_for_ordered, forward_tsn_for_unordered,
}
use sctp.Queue.Reassembly

pub data ReliabilityType : Type 0 where
  reliable rexmit timed : ReliabilityType

unfoldable pub reliability_from_u8 : ℕ → ReliabilityType
reliability_from_u8 v = if v == 1 then rexmit else if v == 2 then timed else reliable

pub record Stream : Type 0 where
  pub max_payload_size : ℕ
  pub stream_identifier : ℕ
  pub default_payload_type : ℕ
  pub reassembly_queue : ReassemblyQueue
  pub sequence_number : ℕ
  pub read_shutdown : Bool
  pub write_shutdown : Bool
  pub unordered : Bool
  pub reliability_type : ReliabilityType
  pub reliability_value : ℕ
  pub buffered_amount : ℕ
  pub buffered_amount_low : ℕ

-- The association's side: its limit, its state, the queue to send from, and the store of the
-- chunks' flags, of which `next_cell` is the first free address.
pub record Shared : Type 0 where
  pub max_message_size : ℕ
  pub state : AssociationState
  pub pending_queue : PendingQueue
  pub cells : Cells
  pub next_cell : ℕ

unfoldable pub new : ℕ → ℕ → Stream
new stream_identifier max_payload_size = record {
  max_payload_size = max_payload_size;
  stream_identifier = stream_identifier;
  default_payload_type = 0;
  reassembly_queue = Reassembly.new stream_identifier;
  sequence_number = 0;
  read_shutdown = false;
  write_shutdown = false;
  unordered = false;
  reliability_type = reliable;
  reliability_value = 0;
  buffered_amount = 0;
  buffered_amount_low = 0;
}

unfoldable pub set_default_payload_type : Stream → PayloadProtocolIdentifier → Stream
set_default_payload_type s ppi = record s { default_payload_type = to_u32 ppi }

unfoldable pub set_reliability_params : Stream → Bool → ReliabilityType → ℕ → Stream
set_reliability_params s unordered rel_type rel_val = record s {
  unordered = unordered;
  reliability_type = rel_type;
  reliability_value = rel_val;
}

-- One round of the loop of `read_sctp`: `none` is the wait for a notification.
unfoldable pub read_sctp : Stream → ℕ → Stream × Option (Result (ℕ × PayloadProtocolIdentifier))
read_sctp s buf_len =
    let r = Reassembly.read s.reassembly_queue buf_len in
    let s' = record s { reassembly_queue = r.queue } in
    if s.read_shutdown then (s, some (ok (0, unknown))) else elim r.outcome [
      | ok n ↦ (s', some (ok n))
      | err err_short_buffer ↦ (s', some (err err_short_buffer))
      | err e ↦ (s', none)
      | panicked ↦ (s', some panicked)
    ]

-- The Boolean of the next three is whether the reader is notified.
unfoldable pub handle_data : Stream → ChunkPayloadData → Stream × Bool
handle_data s pd =
    let (q, complete) = Reassembly.push s.reassembly_queue pd in
    (record s { reassembly_queue = q }, if complete then is_readable q else false)

unfoldable pub handle_forward_tsn_for_ordered : Stream → ℕ → Stream × Bool
handle_forward_tsn_for_ordered s ssn =
    let q = forward_tsn_for_ordered s.reassembly_queue ssn in
    if s.unordered then (s, false) else (record s { reassembly_queue = q }, is_readable q)

unfoldable pub handle_forward_tsn_for_unordered : Stream → ℕ → Stream × Bool
handle_forward_tsn_for_unordered s new_cumulative_tsn =
    let q = forward_tsn_for_unordered s.reassembly_queue new_cumulative_tsn in
    if not s.unordered then (s, false) else (record s { reassembly_queue = q }, is_readable q)

-- The test `ppi != PayloadProtocolIdentifier::Dcep`.
abbrev pub is_dcep : PayloadProtocolIdentifier → Bool
is_dcep dcep = true
is_dcep _ = false

-- `..Default::default()`: the fields that the senders leave alone.
abbrev pub fragment :
    ℕ → ℕ → PayloadProtocolIdentifier → Bool → List ℕ → Bool → Bool → ℕ → ℕ → ChunkPayloadData
fragment sid ssn ppi unordered user_data b e abandoned_cell all_inflight_cell = record {
  unordered = unordered;
  beginning_fragment = b;
  ending_fragment = e;
  immediate_sack = false;
  tsn = 0;
  stream_identifier = sid;
  stream_sequence_number = ssn;
  payload_type = ppi;
  user_data = user_data;
  acked = false;
  miss_indicator = 0;
  since = 0;
  nsent = 0;
  abandoned_cell = abandoned_cell;
  all_inflight_cell = all_inflight_cell;
  retransmit = false;
}

-- The loop of `packetize` from offset `i`, where `remaining` bytes are left, on fuel: none when the
-- fuel runs out, as when `max_payload_size` is 0.
unfoldable pub packetize_loop :
    ℕ
    → Stream
    → PayloadProtocolIdentifier
    → Bool
    → ℕ
    → List ℕ
    → ℕ
    → ℕ
    → Option (List ChunkPayloadData)
packetize_loop zero s ppi unordered cell raw i remaining = none
packetize_loop (suc fuel) s ppi unordered cell raw i remaining =
    let fragment_size = min s.max_payload_size remaining in
    let chunk =
      fragment s.stream_identifier s.sequence_number ppi unordered (take fragment_size (drop i raw))
        (i == 0) (remaining - fragment_size == 0) cell (suc cell) in
    let rest =
      packetize_loop fuel s ppi unordered cell raw (i + fragment_size)
        (remaining - fragment_size) in
    if remaining == 0 then some [] else elim rest [ none ↦ none | some cs ↦ some (chunk ∷ cs) ]

-- The stream after a message of `n` bytes was cut: its number and its amount move on.
unfoldable pub count_message : Stream → Bool → ℕ → Stream
count_message s unordered n = record s {
  sequence_number = if not unordered then add16 s.sequence_number 1 else s.sequence_number;
  buffered_amount = add64 s.buffered_amount n;
}

-- The two `Arc::new(AtomicBool::new(false))`.
unfoldable pub new_flags : Shared → Shared
new_flags h = record h {
  cells = store (store h.cells h.next_cell false) (suc h.next_cell) false;
  next_cell = h.next_cell + 2;
}

-- None when the loop does not end.
unfoldable pub packetize :
    Stream
    → Shared
    → List ℕ
    → PayloadProtocolIdentifier
    → Option (List ChunkPayloadData × Stream × Shared)
unfolding packetize_loop count_message new_flags
packetize s h raw ppi =
    let unordered = not (is_dcep ppi) && s.unordered in
    let chunks = packetize_loop (length raw + 1) s ppi unordered h.next_cell raw 0 (length raw) in
    elim chunks [
      | none ↦ none
      | some cs ↦ some (cs, count_message s unordered (length raw), new_flags h)
    ]

unfoldable pub send_payload_data : Shared → List ChunkPayloadData → Shared × Result (Unit {0})
send_payload_data h chunks =
    if not (same_state h.state established)
    then (h, err err_payload_data_state_not_exist)
    else (record h { pending_queue = Pending.push_all h.pending_queue chunks }, ok tt)

-- The states in which `write_sctp` answers that the stream is closed.
abbrev pub is_shutting_down : AssociationState → Bool
is_shutting_down st =
    same_state st shutdown_sent
    || same_state st shutdown_ack_sent
    || same_state st shutdown_pending
    || same_state st shutdown_received

unfoldable pub send_packetized :
    Option (List ChunkPayloadData × Stream × Shared) → ℕ → Option (Stream × Shared × Result ℕ)
unfolding send_payload_data
send_packetized none n = none
send_packetized (some (chunks, s, h)) n =
    let (h', sent) = send_payload_data h chunks in
    some (s, h', elim sent [ ok _ ↦ ok n | err e ↦ err e | panicked ↦ panicked ])

-- None when `packetize` does not end.
unfoldable pub write_sctp :
    Stream → Shared → List ℕ → PayloadProtocolIdentifier → Option (Stream × Shared × Result ℕ)
unfolding packetize send_packetized
write_sctp s h p ppi =
    if s.write_shutdown
    then some (s, h, err err_stream_closed)
    else if ltb h.max_message_size (length p)
    then some (s, h, err err_outbound_packet_too_large)
    else if is_shutting_down h.state
    then some (s, h, err err_stream_closed)
    else send_packetized (packetize s h p ppi) (length p)

unfoldable pub write : Stream → Shared → List ℕ → Option (Stream × Shared × Result ℕ)
unfolding write_sctp
write s h p = write_sctp s h p (from_u32 s.default_payload_type)

-- An empty fragment stands for the end of the stream; `Arc::default()` is a flag of its own.
unfoldable pub send_reset_request : Shared → ℕ → Shared × Result (Unit {0})
unfolding new_flags
send_reset_request h stream_identifier =
    if not (same_state h.state established) then (h, err err_reset_packet_in_state_not_exist) else (
      record (new_flags h) {
        pending_queue =
            Pending.push h.pending_queue (
              fragment stream_identifier 0 unknown false [] true true h.next_cell
                (suc h.next_cell));
      },
      ok tt,
    )

pub data Shutdown : Type 0 where
  reading writing both : Shutdown

abbrev pub shuts_read : Shutdown → Bool
shuts_read writing = false
shuts_read _ = true

abbrev pub shuts_write : Shutdown → Bool
shuts_write reading = false
shuts_write _ = true

abbrev pub is_both : Shutdown → Bool
is_both both = true
is_both _ = false

-- The flags after the first half of `shutdown`.
unfoldable pub shut_flags : Stream → Shutdown → Stream
shut_flags s how = record s {
  read_shutdown = s.read_shutdown || shuts_read how;
  write_shutdown = s.write_shutdown || shuts_write how;
}

-- The middle result is whether the waiting readers are notified.
unfoldable pub shutdown : Stream → Shared → Shutdown → Stream × Shared × Bool × Result (Unit {0})
unfolding shut_flags send_reset_request
shutdown s h how =
    let s' = shut_flags s how in
    let (h', sent) = send_reset_request h s.stream_identifier in
    let notified = shuts_read how && not s.read_shutdown in
    if s.read_shutdown && s.write_shutdown
    then (s, h, false, ok tt)
    else if is_both how || (s'.read_shutdown && s'.write_shutdown)
    then (s', h', notified, sent)
    else (s', h, notified, ok tt)

unfoldable pub set_buffered_amount_low_threshold : Stream → ℕ → Stream
set_buffered_amount_low_threshold s th = record s { buffered_amount_low = th }

-- The amount after a release; `n_bytes_released` is not negative in any call.
unfoldable pub released_amount : ℕ → ℕ → ℕ
released_amount from n = if ltb from n then 0 else from - n

-- The Boolean is whether the callback runs.
unfoldable pub on_buffer_released : Stream → ℕ → Stream × Bool
unfolding released_amount
on_buffer_released s n =
    let new_amount = released_amount s.buffered_amount n in
    if n == 0 then (s, false) else (
      record s { buffered_amount = new_amount },
      ltb s.buffered_amount_low s.buffered_amount && leb new_amount s.buffered_amount_low,
    )
