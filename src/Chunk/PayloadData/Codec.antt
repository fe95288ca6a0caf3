-- ===== src/Chunk/PayloadData/Codec.antt =====
-- src/chunk/chunk_payload_data.rs: the DATA chunk on the wire. `now` is the clock's reading and the
-- two addresses are the fresh flags of a received chunk.
pub mod RoundTrip
use sctp.Base.{
  ℕ, ◌+◌, ◌/◌, ◌%◌, ◌^◌, List, ◌++◌, length, if◌then◌else◌, leb, ◌==◌, Bool, true, false,
}
use sctp.Error.{
  Result, ok, ◌>>=◌, ◌>>◌, guard, reading, err_chunk_type_not_payload_data, err_chunk_payload_small,
}
use sctp.Bytes.{Buf, slice}
use sctp.Chunk.Header
use sctp.Chunk.Header.{ChunkHeader, ct_payload_data, chunk_header_size}
use sctp.Chunk.PayloadData.{ChunkPayloadData, to_u32, from_u32}

abbrev pub payload_data_header_size : ℕ
payload_data_header_size = 12

unfoldable pub value_length : ChunkPayloadData → ℕ
value_length c = payload_data_header_size + length c.user_data

-- Each `|=` sets a bit that is still clear.
unfoldable pub header : ChunkPayloadData → ChunkHeader
unfolding value_length
header c =
    let flags = if c.ending_fragment then 1 else 0 in
    let flags = if c.beginning_fragment then flags + 2 else flags in
    let flags = if c.unordered then flags + 4 else flags in
    let flags = if c.immediate_sack then flags + 8 else flags in
    record { typ = ct_payload_data; flags = flags; value_length = value_length c % 2 ^ 16 }

-- `flags & mask != 0`, for a mask of one bit.
abbrev pub has_bit : ℕ → ℕ → Bool
has_bit flags mask = flags / mask % 2 == 1

unfoldable pub unmarshal : Buf → (now abandoned all_inflight : ℕ) → List ℕ → Result ChunkPayloadData
unmarshal buf now abandoned all_inflight raw = do
  header ← Header.unmarshal buf raw
  guard (header.typ == ct_payload_data) err_chunk_type_not_payload_data
  let immediate_sack = has_bit header.flags 8
  let unordered = has_bit header.flags 4
  let beginning_fragment = has_bit header.flags 2
  let ending_fragment = has_bit header.flags 1
  guard (leb payload_data_header_size header.value_length) err_chunk_payload_small
  reader ← slice chunk_header_size (chunk_header_size + header.value_length) raw
  (tsn, reader) ← reading (buf.get_u32 reader)
  (stream_identifier, reader) ← reading (buf.get_u16 reader)
  (stream_sequence_number, reader) ← reading (buf.get_u16 reader)
  (payload_type, reader) ← reading (buf.get_u32 reader)
  user_data ←
      slice (chunk_header_size + payload_data_header_size) (chunk_header_size + header.value_length)
        raw
  ok (record {
    unordered = unordered;
    beginning_fragment = beginning_fragment;
    ending_fragment = ending_fragment;
    immediate_sack = immediate_sack;
    tsn = tsn;
    stream_identifier = stream_identifier;
    stream_sequence_number = stream_sequence_number;
    payload_type = from_u32 payload_type;
    user_data = user_data;
    acked = false;
    miss_indicator = 0;
    since = now;
    nsent = 0;
    abandoned_cell = abandoned;
    all_inflight_cell = all_inflight;
    retransmit = false;
  })

-- The bytes after the header.
unfoldable pub value : Buf → ChunkPayloadData → List ℕ
value buf c =
    buf.put_u32 c.tsn
    ++ (buf.put_u16 c.stream_identifier
        ++ (buf.put_u16 c.stream_sequence_number
            ++ (buf.put_u32 (to_u32 c.payload_type) ++ c.user_data)))

unfoldable pub marshal_to : Buf → ChunkPayloadData → List ℕ
unfolding header value
marshal_to buf c = Header.marshal_to buf (header c) ++ value buf c
