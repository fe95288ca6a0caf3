-- ===== src/Association/Sack/Handle.antt =====
-- `handle_sack` and `postprocess_sack` of src/association/association_internal.rs.
pub mod Forward
pub mod Monotone
use sctp.Base.{
  ℕ, zero, suc, ◌-◌, ◌%◌, ◌^◌, Bool, true, false, not, ◌||◌, [], ◌∷◌, none, some, if◌then◌else◌,
  leb, add32,
}
use sctp.Base.Assoc.{modify}
use sctp.Base.Sort.{total}
use sctp.Error.{Result, ok, err, panicked}
use sctp.Sna.{sna32lt, sna32gt}
use sctp.Chunk.PayloadData.{abandoned}
use sctp.Queue.Payload
use sctp.Stream.{on_buffer_released}
use sctp.Association.State.{
  AssociationState, established, shutdown_pending, shutdown_received, shutdown_sent,
  shutdown_ack_sent, same_state,
}
use sctp.Association.Internal.{Association, ChunkSelectiveAck, set_state, awake_write_loop}
use sctp.Association.Sack.{
  BytesAcked, process_selective_ack, on_cumulative_tsn_ack_point_advanced,
  process_fast_retransmission,
}

unfoldable pub total_bytes : BytesAcked → ℕ
total_bytes m = total (λ e. e.1) m

-- The loop that tells each stream what left its buffer.
unfoldable pub release_buffers : BytesAcked → Association → Association
release_buffers [] a = a
release_buffers ((si, n) ∷ m) a =
    release_buffers m (record a { streams = modify si (λ s. (on_buffer_released s n).0) a.streams })

unfoldable pub advance_cumulative : Association → ChunkSelectiveAck → ℕ → Association
advance_cumulative a d n =
    on_cumulative_tsn_ack_point_advanced
      (record a { cumulative_tsn_ack_point = d.cumulative_tsn_ack }) n

-- The peer's window less what is still outstanding.
unfoldable pub update_rwnd : Association → ℕ → Association
update_rwnd a credit =
    let outstanding = Payload.get_num_bytes a.inflight_queue % 2 ^ 32 in
    record a { rwnd = if leb credit outstanding then 0 else credit - outstanding }

-- RFC 3758, section 3.5: the point moves over the abandoned chunks that follow it, on fuel.
unfoldable pub skip_abandoned : ℕ → Association → ℕ → ℕ
skip_abandoned zero a point = point
skip_abandoned (suc fuel) a point = elim (Payload.get a.inflight_queue (add32 point 1)) [
  | none ↦ point
  | some c ↦ elim (abandoned a.cells c) [
    | true ↦ skip_abandoned fuel a (add32 point 1)
    | false ↦ point
  ]
]

-- All three rules of that section.
unfoldable pub advance_forward : Association → Association
unfolding skip_abandoned awake_write_loop
advance_forward a =
    let start =
      if sna32lt a.advanced_peer_tsn_ack_point a.cumulative_tsn_ack_point
      then a.cumulative_tsn_ack_point
      else a.advanced_peer_tsn_ack_point in
    let point = skip_abandoned (Payload.len a.inflight_queue) a start in
    awake_write_loop (record a {
      advanced_peer_tsn_ack_point = point;
      will_send_forward_tsn =
          if sna32gt point a.cumulative_tsn_ack_point then true else a.will_send_forward_tsn;
    })

unfoldable pub postprocess_sack : Association → AssociationState → Bool → Association
unfolding set_state awake_write_loop
postprocess_sack a state should_awake =
    let started = record a { t3rtx = true } in
    if not (Payload.is_empty a.inflight_queue)
    then if should_awake then awake_write_loop started else started
    else if same_state state shutdown_pending
    then awake_write_loop (set_state (record a { will_send_shutdown = true }) shutdown_sent)
    else if same_state state shutdown_received
    then awake_write_loop (set_state (record a { will_send_shutdown_ack = true }) shutdown_ack_sent)
    else if should_awake
    then awake_write_loop a
    else a

-- The handler after `process_selective_ack` has gone well.
unfoldable pub finish_sack :
    Association → ChunkSelectiveAck → BytesAcked → ℕ → Association × Result (Unit {0})
unfolding total_bytes release_buffers advance_cumulative update_rwnd advance_forward
    postprocess_sack
finish_sack a d acked htna =
    let advanced = sna32lt a.cumulative_tsn_ack_point d.cumulative_tsn_ack in
    let a1 = if advanced then advance_cumulative a d (total_bytes acked) else a in
    let a2 = update_rwnd (release_buffers acked a1) d.advertised_receiver_window_credit in
    let (a3, outcome) = process_fast_retransmission a2 d.cumulative_tsn_ack htna advanced in
    elim outcome [
      | ok _ ↦ (
        postprocess_sack (if a3.use_forward_tsn then advance_forward a3 else a3) a.state advanced,
        ok tt,
      )
      | err e ↦ (a3, err e)
      | panicked ↦ (a3, panicked)
    ]

abbrev pub takes_sacks : AssociationState → Bool
takes_sacks st =
    same_state st established || same_state st shutdown_pending || same_state st shutdown_received

unfoldable pub handle_sack : ℕ → Association → ChunkSelectiveAck → Association × Result (Unit {0})
unfolding finish_sack
handle_sack now a d =
    let (p, outcome) = process_selective_ack now a d in
    if not (takes_sacks a.state)
    then (a, ok tt)
    else if sna32gt a.cumulative_tsn_ack_point d.cumulative_tsn_ack
    then (a, ok tt)
    else elim outcome [
      | ok _ ↦ finish_sack p.assoc d p.bytes_acked p.htna
      | err e ↦ (p.assoc, err e)
      | panicked ↦ (p.assoc, panicked)
    ]
