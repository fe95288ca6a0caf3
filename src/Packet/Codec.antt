-- ===== src/Packet/Codec.antt =====
-- src/packet.rs: the packet on the wire. The loop of the parser runs on fuel, one more than the
-- length of the buffer, which is enough, as a chunk has four bytes at least.
pub mod Reparse
pub mod Fuel
pub mod RoundTrip
use sctp.Base.{
  ℕ, zero, suc, ◌+◌, ◌%◌, ◌^◌, Bool, true, false, List, [], ◌∷◌, ◌++◌, length, take, drop, leb,
  ◌==◌, if◌then◌else◌,
}
use sctp.Error.{
  Result, ok, panicked, ◌>>=◌, ◌>>◌, guard, reading, err_packet_raw_too_small,
  err_checksum_mismatch, err_parse_sctp_chunk_not_enough_data,
}
use sctp.Bytes.{Buf, slice_from}
use sctp.Sna.{get_padding_size}
use sctp.Chunk.Header
use sctp.Chunk.Header.{
  index, ct_init, ct_init_ack, ct_abort, ct_cookie_echo, ct_cookie_ack, ct_heartbeat,
  ct_payload_data, ct_sack, ct_reconfig, ct_forward_tsn, ct_error, ct_shutdown, ct_shutdown_ack,
  ct_shutdown_complete, chunk_header_size,
}
use sctp.Chunk.PayloadData.Codec as Data
use sctp.Chunk.SelectiveAck as Sack
use sctp.Chunk.ForwardTsn as Forward
use sctp.Chunk.Init as Init
use sctp.Chunk.Init.{zeroes}
use sctp.Chunk.Reconfig as Reconfig
use sctp.Chunk.Causes.{unmarshal_abort, unmarshal_error, marshal_causes}
use sctp.Chunk.Control as Control
use sctp.Packet.{
  Chunk, Packet, value_length, init, abort, cookie_echo, cookie_ack, heartbeat, heartbeat_ack,
  payload_data, sack, reconfig, forward_tsn, error, shutdown, shutdown_ack, shutdown_complete,
  unknown,
}

abbrev pub packet_header_size : ℕ
packet_header_size = 12

-- The parser that the chunk's type selects.
unfoldable pub unmarshal_chunk : Buf → (now fresh ct : ℕ) → List ℕ → Result Chunk
unmarshal_chunk buf now fresh ct raw =
    if ct == ct_init
    then (do c ← Init.unmarshal buf raw; ok (init c))
    else if ct == ct_init_ack
    then (do c ← Init.unmarshal buf raw; ok (init c))
    else if ct == ct_abort
    then (do causes ← unmarshal_abort buf raw; ok (abort causes))
    else if ct == ct_cookie_echo
    then (do c ← Control.unmarshal_cookie_echo buf raw; ok (cookie_echo c))
    else if ct == ct_cookie_ack
    then (do _ ← Control.unmarshal_cookie_ack buf raw; ok cookie_ack)
    else if ct == ct_heartbeat
    then (do params ← Control.unmarshal_heartbeat buf raw; ok (heartbeat params))
    else if ct == ct_payload_data
    then (do c ← Data.unmarshal buf now fresh (fresh + 1) raw; ok (payload_data c))
    else if ct == ct_sack
    then (do c ← Sack.unmarshal buf raw; ok (sack c))
    else if ct == ct_reconfig
    then (do c ← Reconfig.unmarshal buf raw; ok (reconfig c))
    else if ct == ct_forward_tsn
    then (do c ← Forward.unmarshal buf raw; ok (forward_tsn c))
    else if ct == ct_error
    then (do causes ← unmarshal_error buf raw; ok (error causes))
    else if ct == ct_shutdown
    then (do c ← Control.unmarshal_shutdown buf raw; ok (shutdown c))
    else if ct == ct_shutdown_ack
    then (do _ ← Control.unmarshal_shutdown_ack buf raw; ok shutdown_ack)
    else if ct == ct_shutdown_complete
    then (do _ ← Control.unmarshal_shutdown_complete buf raw; ok shutdown_complete)
    else (do c ← Control.unmarshal_unknown buf raw; ok (unknown c))

unfoldable pub chunk_loop : Buf → (now fuel fresh offset : ℕ) → List ℕ → Result (List Chunk)
unfolding unmarshal_chunk get_padding_size value_length
chunk_loop buf now zero fresh offset raw = panicked
chunk_loop buf now (suc fuel) fresh offset raw = elim (offset == length raw) [
  | true ↦ ok []
  | false ↦ do
    guard (leb (offset + chunk_header_size) (length raw)) err_parse_sctp_chunk_not_enough_data
    ct ← index offset raw
    part ← slice_from offset raw
    c ← unmarshal_chunk buf now fresh ct part
    let chunk_value_padding = get_padding_size (value_length c)
    chunks ←
        chunk_loop buf now fuel (fresh + 2)
          (offset + (chunk_header_size + value_length c + chunk_value_padding)) raw
    ok (c ∷ chunks)
]

unfoldable pub generate_packet_checksum : (List ℕ → ℕ) → List ℕ → ℕ
unfolding zeroes
generate_packet_checksum crc raw = crc (take 8 raw ++ (zeroes 4 ++ drop 12 raw))

unfoldable pub unmarshal : Buf → (List ℕ → ℕ) → (now fresh : ℕ) → List ℕ → Result Packet
unfolding chunk_loop generate_packet_checksum
unmarshal buf crc now fresh raw = do
  guard (leb packet_header_size (length raw)) err_packet_raw_too_small
  (source_port, reader) ← reading (buf.get_u16 raw)
  (destination_port, reader) ← reading (buf.get_u16 reader)
  (verification_tag, reader) ← reading (buf.get_u32 reader)
  (their_checksum, reader) ← reading (buf.get_u32_le reader)
  guard (their_checksum == generate_packet_checksum crc raw) err_checksum_mismatch
  chunks ← chunk_loop buf now (length raw + 1) fresh packet_header_size raw
  ok (record {
    source_port = source_port;
    destination_port = destination_port;
    verification_tag = verification_tag;
    chunks = chunks;
  })

unfoldable pub marshal_chunk : Buf → Chunk → Result (List ℕ)
marshal_chunk buf (init c) = ok (Init.marshal_to buf c)
marshal_chunk buf (abort causes) = ok (marshal_causes buf ct_abort causes)
marshal_chunk buf (cookie_echo c) = ok (Control.marshal_cookie_echo buf c)
marshal_chunk buf cookie_ack = ok (Control.marshal_empty buf ct_cookie_ack)
marshal_chunk buf (heartbeat params) = ok (Control.marshal_heartbeat buf params)
marshal_chunk buf (heartbeat_ack params) = Control.marshal_heartbeat_ack buf params
marshal_chunk buf (payload_data c) = ok (Data.marshal_to buf c)
marshal_chunk buf (sack c) = ok (Sack.marshal_to buf c)
marshal_chunk buf (reconfig c) = Reconfig.marshal_to buf c
marshal_chunk buf (forward_tsn c) = ok (Forward.marshal_to buf c)
marshal_chunk buf (error causes) = ok (marshal_causes buf ct_error causes)
marshal_chunk buf (shutdown c) = ok (Control.marshal_shutdown buf c)
marshal_chunk buf shutdown_ack = ok (Control.marshal_empty buf ct_shutdown_ack)
marshal_chunk buf shutdown_complete = ok (Control.marshal_empty buf ct_shutdown_complete)
marshal_chunk buf (unknown c) = ok (Control.marshal_unknown buf c)

-- The padding is computed from the length of all that is written so far.
unfoldable pub write_chunks : Buf → List ℕ → List Chunk → Result (List ℕ)
unfolding marshal_chunk get_padding_size zeroes
write_chunks buf raw [] = ok raw
write_chunks buf raw (c ∷ chunks) = do
  chunk_raw ← marshal_chunk buf c
  let raw = raw ++ chunk_raw
  write_chunks buf (raw ++ zeroes (get_padding_size (length raw))) chunks

-- The writer is empty, as `marshal` calls it: the digest goes over the eight bytes written first.
unfoldable pub marshal : Buf → (List ℕ → ℕ) → Packet → Result (List ℕ)
unfolding write_chunks zeroes
marshal buf crc p = do
  let writer =
      buf.put_u16 p.source_port
      ++ (buf.put_u16 p.destination_port ++ buf.put_u32 p.verification_tag)
  raw ← write_chunks buf [] p.chunks
  let checksum = crc (writer ++ (zeroes 4 ++ raw))
  ok (writer ++ (buf.put_u32_le checksum ++ raw))
