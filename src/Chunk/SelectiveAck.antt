-- ===== src/Chunk/SelectiveAck.antt =====
-- src/chunk/chunk_selective_ack.rs: the SACK chunk and its place on the wire. The two loops of the
-- parser are recursions on the count that the chunk announces.
pub mod RoundTrip
use sctp.Base.{ℕ, zero, suc, ◌+◌, ◌*◌, ◌%◌, ◌^◌, List, [], ◌∷◌, ◌++◌, length, leb, ◌==◌}
use sctp.Error.{
  Result, ok, ◌>>=◌, ◌>>◌, guard, reading, err_chunk_type_not_sack,
  err_sack_size_not_large_enough_info,
}
use sctp.Bytes.{Buf, slice}
use sctp.Chunk.Header
use sctp.Chunk.Header.{ChunkHeader, ct_sack, chunk_header_size}
use sctp.Queue.Payload.{GapAckBlock}

pub record ChunkSelectiveAck : Type 0 where
  pub cumulative_tsn_ack : ℕ
  pub advertised_receiver_window_credit : ℕ
  pub gap_ack_blocks : List GapAckBlock
  pub duplicate_tsn : List ℕ

abbrev pub selective_ack_header_size : ℕ
selective_ack_header_size = 12

unfoldable pub value_length : ChunkSelectiveAck → ℕ
value_length c =
    selective_ack_header_size + length c.gap_ack_blocks * 4 + length c.duplicate_tsn * 4

unfoldable pub header : ChunkSelectiveAck → ChunkHeader
unfolding value_length
header c = record { typ = ct_sack; flags = 0; value_length = value_length c % 2 ^ 16 }

unfoldable pub read_blocks : Buf → ℕ → List ℕ → Result (List GapAckBlock × List ℕ)
read_blocks buf zero reader = ok ([], reader)
read_blocks buf (suc n) reader = do
  (first, reader) ← reading (buf.get_u16 reader)
  (last, reader) ← reading (buf.get_u16 reader)
  (blocks, reader) ← read_blocks buf n reader
  ok (record { start = first; finish = last } ∷ blocks, reader)

unfoldable pub read_tsns : Buf → ℕ → List ℕ → Result (List ℕ × List ℕ)
read_tsns buf zero reader = ok ([], reader)
read_tsns buf (suc n) reader = do
  (tsn, reader) ← reading (buf.get_u32 reader)
  (tsns, reader) ← read_tsns buf n reader
  ok (tsn ∷ tsns, reader)

unfoldable pub unmarshal : Buf → List ℕ → Result ChunkSelectiveAck
unfolding read_blocks read_tsns
unmarshal buf raw = do
  header ← Header.unmarshal buf raw
  guard (header.typ == ct_sack) err_chunk_type_not_sack
  guard (leb selective_ack_header_size header.value_length) err_sack_size_not_large_enough_info
  reader ← slice chunk_header_size (chunk_header_size + header.value_length) raw
  (cumulative_tsn_ack, reader) ← reading (buf.get_u32 reader)
  (advertised_receiver_window_credit, reader) ← reading (buf.get_u32 reader)
  (gap_ack_blocks_len, reader) ← reading (buf.get_u16 reader)
  (duplicate_tsn_len, reader) ← reading (buf.get_u16 reader)
  guard
      (leb (selective_ack_header_size + (4 * gap_ack_blocks_len + 4 * duplicate_tsn_len))
        header.value_length)
      err_sack_size_not_large_enough_info
  (gap_ack_blocks, reader) ← read_blocks buf gap_ack_blocks_len reader
  (duplicate_tsn, reader) ← read_tsns buf duplicate_tsn_len reader
  ok (record {
    cumulative_tsn_ack = cumulative_tsn_ack;
    advertised_receiver_window_credit = advertised_receiver_window_credit;
    gap_ack_blocks = gap_ack_blocks;
    duplicate_tsn = duplicate_tsn;
  })

unfoldable pub write_blocks : Buf → List GapAckBlock → List ℕ
write_blocks buf [] = []
write_blocks buf (g ∷ blocks) =
    buf.put_u16 g.start ++ (buf.put_u16 g.finish ++ write_blocks buf blocks)

unfoldable pub write_tsns : Buf → List ℕ → List ℕ
write_tsns buf [] = []
write_tsns buf (t ∷ tsns) = buf.put_u32 t ++ write_tsns buf tsns

-- The bytes after the header.
unfoldable pub value : Buf → ChunkSelectiveAck → List ℕ
unfolding write_blocks write_tsns
value buf c =
    buf.put_u32 c.cumulative_tsn_ack
    ++ (buf.put_u32 c.advertised_receiver_window_credit
        ++ (buf.put_u16 (length c.gap_ack_blocks % 2 ^ 16)
            ++ (buf.put_u16 (length c.duplicate_tsn % 2 ^ 16)
                ++ (write_blocks buf c.gap_ack_blocks ++ write_tsns buf c.duplicate_tsn))))

unfoldable pub marshal_to : Buf → ChunkSelectiveAck → List ℕ
unfolding header value
marshal_to buf c = Header.marshal_to buf (header c) ++ value buf c
