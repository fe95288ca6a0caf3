-- ===== src/Association/Gather.antt =====
-- src/association/association_internal.rs: `gather_outbound`, which the write loop calls for the
-- packets to send, with the functions that it calls and the chunks that it makes. Each part gives
-- its packets; the ones that do not marshal are left out at the end.
pub mod End
use sctp.Base.{
  ℕ, zero, suc, ◌+◌, ◌≡◌, refl, Bool, true, false, not, List, [], ◌∷◌, ◌++◌, Option, none, some,
  if◌then◌else◌, ◌||◌, map, is_empty, length, add32, sub32, arith,
}
use sctp.Base.Assoc.{lookup, insert}
use sctp.Error.{Result, ok, err, panicked, err_reset_packet_in_state_not_exist}
use sctp.Bytes.{Buf}
use sctp.Sna.{sna32lte, sna32gt, sna16lt}
use sctp.Param.Values.{outgoing_reset_request}
use sctp.Chunk.PayloadData.{ChunkPayloadData}
use sctp.Chunk.ForwardTsn.{ChunkForwardTsn, ChunkForwardTsnStream}
use sctp.Chunk.Reconfig.{ChunkReconfig}
use sctp.Packet.{
  Packet, payload_data, sack, forward_tsn, reconfig, shutdown, shutdown_ack, shutdown_complete,
}
use sctp.Packet.Codec.{marshal}
use sctp.Queue.Payload as Payload
use sctp.Stream.{fragment}
use sctp.Association.State.{
  AssociationState, same_state, established, shutdown_pending, shutdown_sent, shutdown_received,
  shutdown_ack_sent,
}
use sctp.Association.Internal.{Association, outbound_packet}
use sctp.Association.Receive.{gather_outbound_sack_packets}
use sctp.Association.Teardown.{
  ShutdownPacket, shutdown_chunk, shutdown_ack_chunk, shutdown_complete_chunk,
  gather_outbound_shutdown_packets,
}
use sctp.Association.Send.{
  get_data_packets_to_retransmit, pop_pending_data_chunks_to_send, bundle_data_chunks_into_packets,
  gather_outbound_fast_retransmission_packets,
}
use sctp.Association.Inbound.Network.{drain_control_queue}

-- A packet of DATA chunks.
unfoldable pub data_packet : Association → List ChunkPayloadData → Packet
data_packet a chunks = record {
  source_port = a.source_port;
  destination_port = a.destination_port;
  verification_tag = a.peer_verification_tag;
  chunks = map payload_data chunks;
}

-- The map from streams to the greatest sequence number that was passed.
unfoldable pub report_stream : List (ℕ × ℕ) → ChunkPayloadData → List (ℕ × ℕ)
report_stream stream_map c = elim (lookup c.stream_identifier stream_map) [
  | some ssn ↦
      if sna16lt ssn c.stream_sequence_number
      then insert c.stream_identifier c.stream_sequence_number stream_map
      else stream_map
  | none ↦ insert c.stream_identifier c.stream_sequence_number stream_map
]

-- The loop of `create_forward_tsn`, on fuel: it passes one chunk in flight per round.
unfoldable pub forward_streams : ℕ → Association → (i : ℕ) → List (ℕ × ℕ) → List (ℕ × ℕ)
unfolding report_stream
forward_streams zero a i stream_map = stream_map
forward_streams (suc fuel) a i stream_map = elim (sna32lte i a.advanced_peer_tsn_ack_point) [
  | false ↦ stream_map
  | true ↦ elim (Payload.get a.inflight_queue i) [
    | none ↦ stream_map
    | some c ↦ forward_streams fuel a (add32 i 1) (report_stream stream_map c)
  ]
]

unfoldable pub create_forward_tsn : Association → ChunkForwardTsn
unfolding forward_streams
create_forward_tsn a =
    let stream_map =
      forward_streams (Payload.len a.inflight_queue) a (add32 a.cumulative_tsn_ack_point 1) [] in
    record {
      new_cumulative_tsn = a.advanced_peer_tsn_ack_point;
      streams = map (λ (e : ℕ × ℕ). record { identifier = e.0; sequence = e.1 }) stream_map;
    }

unfoldable pub gather_outbound_forward_tsn_packets : Association → List Packet × Association
unfolding create_forward_tsn outbound_packet
gather_outbound_forward_tsn_packets a =
    if not a.will_send_forward_tsn
    then ([], a)
    else if sna32gt a.advanced_peer_tsn_ack_point a.cumulative_tsn_ack_point
    then (
      outbound_packet a (forward_tsn (create_forward_tsn a)) ∷ [],
      record a { will_send_forward_tsn = false },
    )
    else ([], record a { will_send_forward_tsn = false })

unfoldable pub generate_next_rsn : Association → ℕ × Association
generate_next_rsn a = (a.my_next_rsn, record a { my_next_rsn = add32 a.my_next_rsn 1 })

-- The request to reset the streams whose last message was sent. It is kept until it is answered.
unfoldable pub request_reset : Association → (sis_to_reset : List ℕ) → List Packet × Association
unfolding generate_next_rsn outbound_packet
request_reset a [] = ([], a)
request_reset a (si ∷ sis) =
    let (rsn, a) = generate_next_rsn a in
    let c : ChunkReconfig = record {
      param_a = some (
          outgoing_reset_request (record {
            reconfig_request_sequence_number = rsn;
            reconfig_response_sequence_number = 0;
            sender_last_tsn = sub32 a.my_next_tsn 1;
            stream_identifiers = si ∷ sis;
          }));
      param_b = none;
    } in
    (outbound_packet a (reconfig c) ∷ [], record a { reconfigs = insert rsn c a.reconfigs })

-- The RE-CONFIG half of `gather_outbound_data_and_reconfig_packets`.
unfoldable pub gather_reconfig : Association → (sis_to_reset : List ℕ) → List Packet × Association
unfolding request_reset
gather_reconfig a sis_to_reset =
    let again =
      if a.will_retransmit_reconfig
      then map (λ (e : ℕ × ChunkReconfig). outbound_packet a (reconfig e.1)) a.reconfigs
      else [] in
    let (requests, b) =
      request_reset (record a { will_retransmit_reconfig = false }) sis_to_reset in
    if not (is_empty sis_to_reset) || a.will_retransmit_reconfig
    then (again ++ requests, if is_empty b.reconfigs then b else record b { treconfig = true })
    else ([], a)

-- The packets of the chunks that were popped, for which the T3 timer runs.
unfoldable pub send_data : Association → List ChunkPayloadData → List Packet × Association
unfolding data_packet
send_data a [] = ([], a)
send_data a (c ∷ chunks) = (
  map (data_packet a) (bundle_data_chunks_into_packets a (c ∷ chunks)),
  record a { t3rtx = true },
)

unfoldable pub gather_outbound_data_and_reconfig_packets :
    (now : ℕ) → Association → List Packet × Association
unfolding gather_reconfig send_data
gather_outbound_data_and_reconfig_packets now a =
    let popped = pop_pending_data_chunks_to_send now a in
    let (data_packets, b) = send_data popped.assoc popped.chunks in
    let (requests, c) = gather_reconfig b popped.sis_to_reset in (data_packets ++ requests, c)

unfoldable pub retransmitted : (now : ℕ) → Association → List Packet × Association
unfolding data_packet
retransmitted now a =
    let (bundles, b) = get_data_packets_to_retransmit now a in (map (data_packet b) bundles, b)

unfoldable pub fast_retransmitted : (now : ℕ) → Association → List Packet × Association
unfolding data_packet
fast_retransmitted now a =
    let (chunks, b) = gather_outbound_fast_retransmission_packets now a in
    (if is_empty chunks then [] else data_packet b chunks ∷ [], b)

unfoldable pub acknowledged : Association → List Packet × Association
unfolding outbound_packet
acknowledged a =
    let (c, b) = gather_outbound_sack_packets a in
    (elim c [ none ↦ [] | some s ↦ outbound_packet b (sack s) ∷ [] ], b)

abbrev pub shutdown_packet : Association → ShutdownPacket → Packet
shutdown_packet a (shutdown_chunk tsn) =
    outbound_packet a (shutdown (record { cumulative_tsn_ack = tsn }))
shutdown_packet a shutdown_ack_chunk = outbound_packet a shutdown_ack
shutdown_packet a shutdown_complete_chunk = outbound_packet a shutdown_complete

unfoldable pub shut_down : Association → List Packet × Bool × Association
unfolding outbound_packet
shut_down a =
    let (p, going, b) = gather_outbound_shutdown_packets a in
    (elim p [ none ↦ [] | some c ↦ shutdown_packet b c ∷ [] ], going, b)

-- The packets so far, and then those of the shutdown.
unfoldable pub finish : List Packet × Association → List Packet × Bool × Association
unfolding shut_down
finish (ps, a) = let (qs, going, b) = shut_down a in (ps ++ qs, going, b)

-- One part after another.
abbrev pub then_gather :
    List Packet × Association
    → (Association → List Packet × Association)
    → List Packet × Association
then_gather (ps, a) f = let (qs, b) = f a in (ps ++ qs, b)

-- What the association's state lets out: all, what was sent before and the shutdown's packets, or
-- only these behind the control packets.
unfoldable pub by_state :
    AssociationState
    → (all resent control : List Packet × Association) → List Packet × Bool × Association
unfolding finish
by_state state all resent control =
    if same_state state established
    then (all.0, true, all.1)
    else if same_state state shutdown_pending
        || same_state state shutdown_sent
        || same_state state shutdown_received
    then finish resent
    else if same_state state shutdown_ack_sent
    then finish control
    else (control.0, true, control.1)

-- The packets of an association, and whether the write loop goes on.
unfoldable pub outbound : (now : ℕ) → Association → List Packet × Bool × Association
unfolding retransmitted fast_retransmitted acknowledged by_state gather_outbound_forward_tsn_packets
    gather_outbound_data_and_reconfig_packets drain_control_queue
outbound now a =
    let control = drain_control_queue a in
    let lost = then_gather control (retransmitted now) in
    let resent = then_gather (then_gather lost (fast_retransmitted now)) acknowledged in
    let sent = then_gather lost (gather_outbound_data_and_reconfig_packets now) in
    let all =
      then_gather (then_gather (then_gather sent (fast_retransmitted now)) acknowledged)
        gather_outbound_forward_tsn_packets in
    by_state a.state all resent control

-- What a packet's marshalling adds.
unfoldable pub push_raw : Result (List ℕ) → List (List ℕ) → List (List ℕ)
push_raw (ok raw) raw_packets = raw ∷ raw_packets
push_raw (err e) raw_packets = raw_packets
push_raw panicked raw_packets = raw_packets

unfoldable pub serialize : Buf → (crc : List ℕ → ℕ) → List Packet → List (List ℕ)
unfolding push_raw
serialize buf crc [] = []
serialize buf crc (p ∷ packets) = push_raw (marshal buf crc p) (serialize buf crc packets)

unfoldable pub gather_outbound :
    Buf → (crc : List ℕ → ℕ) → (now : ℕ) → Association → List (List ℕ) × Bool × Association
unfolding outbound serialize
gather_outbound buf crc now a =
    let (packets, going, b) = outbound now a in (serialize buf crc packets, going, b)
