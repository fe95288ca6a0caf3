-- ===== src/Association/Receive.antt =====
-- The receiving half of src/association/association_internal.rs: DATA, FORWARD-TSN, requests to
-- reset streams, and when an acknowledgement is due. A reply is the result of a reset request.
pub mod Acks
pub mod CumulativeTsn
use sctp.Param.Values.{ReconfigResult, ParamReconfigResponse, success_performed, in_progress}
use sctp.Base.{
  ℕ, zero, suc, ◌+◌, ◌-◌, ◌%◌, ◌^◌, ◌<◌, Bool, true, false, not, ◌&&◌, ◌||◌, List, [], ◌∷◌, ◌++◌,
  Option, none, some, map, if◌then◌else◌, length, leb, ltb, ◌==◌, add32, sub32, add64,
}
use sctp.Base.Assoc.{lookup, contains_key, insert, remove, modify}
use sctp.Error.{Result, ok, err, panicked, err_stream_already_exist, err_stream_create_failed}
use sctp.Sna.{sna32lt, sna32lte}
use sctp.Chunk.PayloadData.{ChunkPayloadData, PayloadProtocolIdentifier}
use sctp.Queue.Payload.{can_push, get_last_tsn_received, get_gap_ack_blocks, pop_duplicates}
use sctp.Queue.Payload
use sctp.Stream.{
  Stream, set_default_payload_type, handle_forward_tsn_for_ordered,
  handle_forward_tsn_for_unordered,
}
use sctp.Stream
use sctp.Timer.Ack as Ack
use sctp.Association.Internal.{
  Association, AckState, immediate, delay, idle, is_idle, is_immediate, is_normal, is_always_delay,
  awake_write_loop, ChunkSelectiveAck, ChunkForwardTsn, ChunkForwardTsnStream,
  ParamOutgoingResetRequest,
}

-- A stream leaves the association, both its halves shut.
unfoldable pub unregister_stream : Association → ℕ → Association
unregister_stream a si = elim (lookup si a.streams) [
  | none ↦ a
  | some s ↦ record a {
    streams = remove si a.streams;
    unregistered = a.unregistered ++ record s { read_shutdown = true; write_shutdown = true } ∷ [];
  }
]

unfoldable pub create_stream : Association → ℕ → Bool → Option Stream × Association
create_stream a si accept =
    let s = Stream.new si a.max_payload_size in
    let a' = record a { streams = insert si s a.streams } in
    if accept
    then if a.accept_room == 0
      then (none, a)
      else (some s, record a' { accept_room = a.accept_room - 1 })
    else (some s, a')

unfoldable pub get_or_create_stream : Association → ℕ → Option Stream × Association
unfolding create_stream
get_or_create_stream a si =
    if contains_key si a.streams then (lookup si a.streams, a) else create_stream a si true

unfoldable pub open_stream :
    Association → ℕ → PayloadProtocolIdentifier → Association × Result Stream
unfolding create_stream
open_stream a si ppi =
    let (made, a') = create_stream a si false in
    if contains_key si a.streams then (a, err err_stream_already_exist) else elim made [
      | none ↦ (a', err err_stream_create_failed)
      | some s ↦
          let s' = set_default_payload_type s ppi in
          (record a' { streams = insert si s' a'.streams }, ok s')
    ]

-- The sum over the streams, in `u32`.
unfoldable pub bytes_queued : List (ℕ × Stream) → ℕ
bytes_queued [] = 0
bytes_queued ((_, s) ∷ ss) = add32 (s.reassembly_queue.n_bytes % 2 ^ 32) (bytes_queued ss)

unfoldable pub get_my_receiver_window_credit : Association → ℕ
unfolding bytes_queued
get_my_receiver_window_credit a =
    let queued = bytes_queued a.streams in
    if leb a.max_receive_buffer_size queued then 0 else a.max_receive_buffer_size - queued

-- The answer to a reset request, by its number.
-- `ParamReconfigResponse` with this request's number.
unfoldable pub response : ℕ → ReconfigResult → ParamReconfigResponse
response rsn result = record { reconfig_response_sequence_number = rsn; result = result }

unfoldable pub unregister_all : Association → List ℕ → Association
unfolding unregister_stream
unregister_all a [] = a
unregister_all a (si ∷ sis) = unregister_all (unregister_stream a si) sis

unfoldable pub reset_streams_if_any :
    Association → ParamOutgoingResetRequest → ParamReconfigResponse × Association
unfolding unregister_all response
reset_streams_if_any a p =
    let a' = unregister_all a p.stream_identifiers in
    let rsn = p.reconfig_request_sequence_number in
    if sna32lte p.sender_last_tsn a.peer_last_tsn
    then (
      response rsn success_performed,
      record a' { reconfig_requests = remove rsn a'.reconfig_requests },
    )
    else (response rsn in_progress, a)

unfoldable pub reset_all :
    Association → List (ℕ × ParamOutgoingResetRequest) → List ParamReconfigResponse × Association
unfolding reset_streams_if_any
reset_all a [] = ([], a)
reset_all a ((_, p) ∷ ps) =
    let (r, a') = reset_streams_if_any a p in let (rs, a'') = reset_all a' ps in (r ∷ rs, a'')

-- `while self.payload_queue.pop(self.peer_last_tsn + 1).is_some()`, on fuel.
unfoldable pub advance_loop : ℕ → Association → List ParamReconfigResponse × Association
unfolding reset_all
advance_loop zero a = ([], a)
advance_loop (suc fuel) a =
    let next = add32 a.peer_last_tsn 1 in
    let (popped, q) = Payload.pop a.payload_queue next in
    elim popped [
      | none ↦ ([], record a { payload_queue = q })
      | some _ ↦
          let (rs, a1) =
            reset_all (record a { payload_queue = q; peer_last_tsn = next }) a.reconfig_requests in
          let (rs', a2) = advance_loop fuel a1 in (rs ++ rs', a2)
    ]

-- Whether the acknowledgement waits, and which of the two flags is raised.
unfoldable pub trigger_ack : Association → Bool → Association
trigger_ack a sack_immediately =
    let has_packet_loss = not (Payload.is_empty a.payload_queue) in
    if not (is_immediate a.ack_state)
        && not sack_immediately
        && not has_packet_loss
        && is_normal a.ack_mode
      || is_always_delay a.ack_mode
    then if is_idle a.ack_state
      then record a { delayed_ack_triggered = true }
      else record a { immediate_ack_triggered = true }
    else record a { immediate_ack_triggered = true }

-- Each round of the loop takes the front off `sorted`.
unfoldable pub handle_peer_last_tsn_and_acknowledgement :
    Association → Bool → List ParamReconfigResponse × Association
unfolding advance_loop trigger_ack
handle_peer_last_tsn_and_acknowledgement a sack_immediately =
    let (reply, a') = advance_loop (length a.payload_queue.sorted + 1) a in
    (reply, trigger_ack a' sack_immediately)

-- Whether `handle_data` keeps the chunk, once its stream exists: with room in the window, or, with
-- none, when it fills a gap.
unfoldable pub has_room : Association → ChunkPayloadData → Bool
has_room a d =
    if ltb 0 (get_my_receiver_window_credit a)
    then true
    else elim (get_last_tsn_received a.payload_queue) [
      | none ↦ false
      | some last_tsn ↦ sna32lt d.tsn last_tsn
    ]

unfoldable pub store_data : Association → ChunkPayloadData → Association
store_data a d = record a {
  payload_queue = (Payload.push a.payload_queue d a.peer_last_tsn).0;
  streams = modify d.stream_identifier (λ s. (Stream.handle_data s d).0) a.streams;
}

unfoldable pub handle_data :
    Association → ChunkPayloadData → List ParamReconfigResponse × Association
unfolding get_or_create_stream has_room store_data
handle_data a d =
    let (s, a') = get_or_create_stream a d.stream_identifier in
    if not (can_push a.payload_queue d a.peer_last_tsn)
    then handle_peer_last_tsn_and_acknowledgement a d.immediate_sack
    else elim s [
      | none ↦ ([], a')
      | some _ ↦
          handle_peer_last_tsn_and_acknowledgement (if has_room a' d then store_data a' d else a')
            d.immediate_sack
    ]

-- `while sna32lt(self.peer_last_tsn, new_cumulative_tsn)`, on fuel.
unfoldable pub forward_loop : ℕ → ℕ → Association → Association
forward_loop zero new_tsn a = a
forward_loop (suc fuel) new_tsn a =
    let next = add32 a.peer_last_tsn 1 in
    elim (sna32lt a.peer_last_tsn new_tsn) [
      | false ↦ a
      | true ↦
          forward_loop fuel new_tsn (record a {
            payload_queue = (Payload.pop a.payload_queue next).1;
            peer_last_tsn = next;
          })
    ]

unfoldable pub forward_ordered : List ChunkForwardTsnStream → List (ℕ × Stream) → List (ℕ × Stream)
forward_ordered [] ss = ss
forward_ordered (f ∷ fs) ss =
    forward_ordered fs
      (modify f.identifier (λ s. (handle_forward_tsn_for_ordered s f.sequence).0) ss)

unfoldable pub forward_unordered : ℕ → List (ℕ × Stream) → List (ℕ × Stream)
forward_unordered tsn ss = map (λ e. (e.0, (handle_forward_tsn_for_unordered (e.1) tsn).0)) ss

-- The first result is none where the source answers with an ERROR chunk.
unfoldable pub handle_forward_tsn :
    Association → ChunkForwardTsn → Option (List ParamReconfigResponse) × Association
unfolding forward_loop forward_ordered forward_unordered awake_write_loop
handle_forward_tsn a c =
    let new_tsn = c.new_cumulative_tsn in
    let a1 = forward_loop (sub32 new_tsn a.peer_last_tsn) new_tsn a in
    let a2 = record a1 {
      streams = forward_unordered new_tsn (forward_ordered c.streams a1.streams);
    } in
    let (reply, a3) = handle_peer_last_tsn_and_acknowledgement a2 false in
    if not a.use_forward_tsn
    then (none, a)
    else if sna32lte new_tsn a.peer_last_tsn
    then (
      some [],
      awake_write_loop (record a { ack_state = immediate; ack_timer = Ack.stop a.ack_timer }),
    )
    else (some reply, a3)

unfoldable pub create_selective_ack_chunk : Association → ChunkSelectiveAck × Association
create_selective_ack_chunk a =
    let (dups, q) = pop_duplicates a.payload_queue in
    (
      record {
        cumulative_tsn_ack = a.peer_last_tsn;
        advertised_receiver_window_credit = get_my_receiver_window_credit a;
        gap_ack_blocks = get_gap_ack_blocks a.payload_queue a.peer_last_tsn;
        duplicate_tsn = dups;
      },
      record a { payload_queue = q },
    )

unfoldable pub handle_chunk_start : Association → Association
handle_chunk_start a = record a { delayed_ack_triggered = false; immediate_ack_triggered = false }

unfoldable pub handle_chunk_end : Association → Association
unfolding awake_write_loop Ack.start Ack.stop
handle_chunk_end a =
    if a.immediate_ack_triggered
    then awake_write_loop (record a { ack_state = immediate; ack_timer = Ack.stop a.ack_timer })
    else if a.delayed_ack_triggered
    then record a { ack_state = delay; ack_timer = (Ack.start a.ack_timer).1 }
    else a

-- The timer's task calls this, and ends with it.
unfoldable pub on_ack_timeout : Association → Association
unfolding awake_write_loop Ack.expire
on_ack_timeout a =
    awake_write_loop (record a { ack_state = immediate; ack_timer = Ack.expire a.ack_timer })

-- A SACK goes out when the acknowledgement is immediate.
unfoldable pub gather_outbound_sack_packets : Association → Option ChunkSelectiveAck × Association
unfolding create_selective_ack_chunk
gather_outbound_sack_packets a =
    let (sack, a') = create_selective_ack_chunk (record a { ack_state = idle }) in
    if is_immediate a.ack_state then (some sack, a') else (none, a)
