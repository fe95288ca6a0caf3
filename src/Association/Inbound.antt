-- ===== src/Association/Inbound.antt =====
-- src/association/association_internal.rs: what becomes of a packet that arrives. `now` is the
-- clock's reading, and `fresh_cookie` what a cookie that is made is filled with.
pub mod Network
use sctp.Base.{
  ℕ, ◌+◌, ◌/◌, ◌%◌, ◌^◌, Bool, true, false, not, List, [], ◌∷◌, ◌++◌, Option, none, some,
  if◌then◌else◌, ◌==◌, map, length,
}
use sctp.Base.Assoc.{insert, remove}
use sctp.Error.{
  Result, ok, err, panicked, ◌>>=◌, Error, err_paramter_type, err_chunk, err_chunk_type_unhandled,
}
use sctp.Bytes.{Buf}
use sctp.Param.Values.{Param, ParamReconfigResponse, outgoing_reset_request, reconfig_response}
use sctp.Chunk.Init
use sctp.Chunk.Reconfig.{ChunkReconfig}
use sctp.Chunk.Causes.{ErrorCause}
use sctp.Chunk.Control.{ChunkUnknown, marshal_unknown}
use sctp.Packet.{
  Chunk, Packet, init, abort, cookie_echo, cookie_ack, heartbeat, heartbeat_ack, payload_data, sack,
  reconfig, forward_tsn, error, shutdown, shutdown_ack, shutdown_complete, unknown,
}
use sctp.Packet.Check.{check_packet}
use sctp.Packet.Codec as Codec
use sctp.Association.Internal.{Association, awake_write_loop, outbound_packet, after}
use sctp.Association.Handshake.{
  handle_init, handle_init_ack, handle_heartbeat, handle_cookie_echo, handle_cookie_ack,
}
use sctp.Association.Sack.Handle.{handle_sack}
use sctp.Association.Receive.{
  handle_data, handle_forward_tsn, handle_chunk_start, handle_chunk_end, reset_streams_if_any,
}
use sctp.Association.Teardown.{handle_shutdown, handle_shutdown_ack, handle_shutdown_complete}

-- The RE-CONFIG packet that answers a reset request.
unfoldable pub response_packet : Association → ParamReconfigResponse → Packet
unfolding outbound_packet
response_packet a r =
    outbound_packet a (reconfig (record { param_a = some (reconfig_response r); param_b = none }))

unfoldable pub handle_reconfig_param : Association → Param → Association × Result (Option Packet)
unfolding reset_streams_if_any response_packet
handle_reconfig_param a (outgoing_reset_request p) =
    let (r, a') =
      reset_streams_if_any
        (record a {
          reconfig_requests = insert p.reconfig_request_sequence_number p a.reconfig_requests;
        })
        p in
    (a', ok (some (response_packet a' r)))
handle_reconfig_param a (reconfig_response p) =
    let reconfigs = remove p.reconfig_response_sequence_number a.reconfigs in
    (
      record a {
        reconfigs = reconfigs;
        treconfig = if length reconfigs == 0 then false else a.treconfig;
      },
      ok none,
    )
handle_reconfig_param a _ = (a, err err_paramter_type)

abbrev pub optional : Option Packet → List Packet
optional none = []
optional (some p) = p ∷ []

-- A parameter that may be missing, after the packets that are due already.
unfoldable pub handle_optional_param :
    Association → List Packet → Option Param → Association × Result (List Packet)
unfolding handle_reconfig_param
handle_optional_param a pp none = (a, ok pp)
handle_optional_param a pp (some param) =
    after (handle_reconfig_param a param) (λ a p. (a, ok (pp ++ optional p)))

unfoldable pub handle_reconfig : Association → ChunkReconfig → Association × Result (List Packet)
unfolding handle_optional_param
handle_reconfig a c =
    after (handle_optional_param a [] c.param_a) (λ a pp. handle_optional_param a pp c.param_b)

-- The ERROR chunk's packet, for a chunk that is written in it.
unfoldable pub report : Association → ErrorCause → Packet
unfolding outbound_packet
report a cause = outbound_packet a (error (cause ∷ []))

-- The packet that reports an unknown chunk.
unfoldable pub report_unknown : Buf → Association → ChunkUnknown → Packet
unfolding report
report_unknown buf a c = report a (record { code = 6; raw = marshal_unknown buf c })

-- A chunk that no handler takes: the two upper bits of its type say what to do.
unfoldable pub handle_unknown :
    Buf → Association → ChunkUnknown → Association × Result (List Packet)
unfolding report_unknown awake_write_loop
handle_unknown buf a c =
    let handle_code = c.hdr.typ / 2 ^ 6 in
    if handle_code == 0
    then (a, err err_chunk_type_unhandled)
    else if handle_code == 1
    then (
      awake_write_loop
          (record a { control_queue = a.control_queue ++ (report_unknown buf a c ∷ []) }),
      err err_chunk_type_unhandled,
    )
    else if handle_code == 2
    then (a, ok [])
    else (a, ok (report_unknown buf a c ∷ []))

-- The packets with which `handle_data` and `handle_forward_tsn` answer reset requests.
unfoldable pub replies : Association → List ParamReconfigResponse → List Packet
unfolding response_packet
replies a rs = map (response_packet a) rs

-- The handler that the chunk's kind selects.
unfoldable pub dispatch :
    Buf
    → (now : ℕ) → (fresh_cookie : List ℕ) → Association
    → Packet
    → Chunk
    → Association × Result (List Packet)
unfolding handle_reconfig handle_unknown replies report
dispatch buf now fresh_cookie a p (init c) =
    if c.is_ack then handle_init_ack a p c else handle_init a p c fresh_cookie
dispatch buf now fresh_cookie a p (abort causes) = (a, err err_chunk)
dispatch buf now fresh_cookie a p (error causes) = (a, err err_chunk)
dispatch buf now fresh_cookie a p (heartbeat params) = (a, ok (handle_heartbeat a params))
dispatch buf now fresh_cookie a p (cookie_echo c) =
    let (a', ps) = handle_cookie_echo a c in (a', ok ps)
dispatch buf now fresh_cookie a p cookie_ack = let (a', ps) = handle_cookie_ack a in (a', ok ps)
dispatch buf now fresh_cookie a p (payload_data c) =
    let (rs, a') = handle_data a c in (a', ok (replies a' rs))
dispatch buf now fresh_cookie a p (sack c) =
    let (a', r) = handle_sack now a c in (a', r >>= λ _. ok [])
dispatch buf now fresh_cookie a p (reconfig c) = handle_reconfig a c
dispatch buf now fresh_cookie a p (forward_tsn c) =
    let (rs, a') = handle_forward_tsn a c in
    elim rs [
      | none ↦ (a', ok (report a' (record { code = 0; raw = [] }) ∷ []))
      | some rs ↦ (a', ok (replies a' rs))
    ]
dispatch buf now fresh_cookie a p (shutdown c) = (handle_shutdown a, ok [])
dispatch buf now fresh_cookie a p shutdown_ack = (handle_shutdown_ack a, ok [])
dispatch buf now fresh_cookie a p shutdown_complete = (handle_shutdown_complete a, ok [])
dispatch buf now fresh_cookie a p (heartbeat_ack params) = (a, err err_chunk_type_unhandled)
dispatch buf now fresh_cookie a p (unknown c) = handle_unknown buf a c

-- `check` of a chunk: only INIT and INIT ACK can fail.
unfoldable pub check_chunk : Chunk → Result (Unit {0})
check_chunk (init c) = Init.check c
check_chunk _ = ok tt

-- The packets of a handler, if any, are queued, and the write loop is woken.
unfoldable pub enqueue : Association → List Packet → Association
unfolding awake_write_loop
enqueue a [] = a
enqueue a (p ∷ packets) =
    awake_write_loop (record a { control_queue = a.control_queue ++ (p ∷ packets) })

unfoldable pub handle_chunk :
    Buf
    → (now : ℕ) → (fresh_cookie : List ℕ) → Association
    → Packet
    → Chunk
    → Association × Result (Unit {0})
unfolding dispatch check_chunk enqueue
handle_chunk buf now fresh_cookie a p c = elim (check_chunk c) [
  | err e ↦ (a, err e)
  | panicked ↦ (a, panicked)
  | ok _ ↦ after (dispatch buf now fresh_cookie a p c) (λ a packets. (enqueue a packets, ok tt))
]

-- The loop over the chunks stops at the first error.
unfoldable pub handle_chunks :
    Buf
    → (now : ℕ) → (fresh_cookie : List ℕ) → Association
    → Packet
    → List Chunk
    → Association × Result (Unit {0})
unfolding handle_chunk
handle_chunks buf now fresh_cookie a p [] = (a, ok tt)
handle_chunks buf now fresh_cookie a p (c ∷ chunks) =
    let rest = λ (a : Association). handle_chunks buf now fresh_cookie a p chunks in
    after (handle_chunk buf now fresh_cookie a p c) (λ a _. rest a)

-- A parsed packet.
unfoldable pub handle_packet :
    Buf
    → (now : ℕ) → (fresh_cookie : List ℕ) → Association
    → Packet
    → Association × Result (Unit {0})
unfolding handle_chunks
handle_packet buf now fresh_cookie a p = elim (check_packet p) [
  | err e ↦ (a, ok tt)
  | panicked ↦ (a, panicked)
  | ok _ ↦
      after (handle_chunks buf now fresh_cookie (handle_chunk_start a) p p.chunks)
        (λ a _. (handle_chunk_end a, ok tt))
]

unfoldable pub handle_inbound :
    Buf
    → (crc : List ℕ → ℕ) → (now fresh : ℕ) → (fresh_cookie : List ℕ) → Association
    → List ℕ
    → Association × Result (Unit {0})
unfolding handle_packet
handle_inbound buf crc now fresh fresh_cookie a raw = elim (Codec.unmarshal buf crc now fresh raw) [
  | err e ↦ (a, ok tt)
  | panicked ↦ (a, panicked)
  | ok p ↦ handle_packet buf now fresh_cookie a p
]
