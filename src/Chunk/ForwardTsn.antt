-- ===== src/Chunk/ForwardTsn.antt =====
-- src/chunk/chunk_forward_tsn.rs: the FORWARD-TSN chunk and its place on the wire. The loop of the
-- parser runs on fuel, the number of bytes that it counts as remaining.
pub mod Parse
pub mod RoundTrip
use sctp.Base.{ℕ, zero, suc, ◌+◌, ◌*◌, ◌-◌, ◌%◌, ◌^◌, List, [], ◌∷◌, ◌++◌, length, leb, ◌==◌, sub64}
use sctp.Error.{
  Result, ok, panicked, ◌>>=◌, ◌>>◌, guard, reading, err_chunk_type_not_forward_tsn,
  err_chunk_too_short,
}
use sctp.Bytes.{Buf, slice}
use sctp.Chunk.Header
use sctp.Chunk.Header.{ChunkHeader, ct_forward_tsn, chunk_header_size}

pub record ChunkForwardTsnStream : Type 0 where
  pub identifier : ℕ
  pub sequence : ℕ

pub record ChunkForwardTsn : Type 0 where
  pub new_cumulative_tsn : ℕ
  pub streams : List ChunkForwardTsnStream

abbrev pub new_cumulative_tsn_length : ℕ
new_cumulative_tsn_length = 4

abbrev pub forward_tsn_stream_length : ℕ
forward_tsn_stream_length = 4

unfoldable pub value_length : ChunkForwardTsn → ℕ
value_length c = new_cumulative_tsn_length + forward_tsn_stream_length * length c.streams

unfoldable pub header : ChunkForwardTsn → ChunkHeader
unfolding value_length
header c = record { typ = ct_forward_tsn; flags = 0; value_length = value_length c % 2 ^ 16 }

unfoldable pub unmarshal_stream : Buf → List ℕ → Result ChunkForwardTsnStream
unmarshal_stream buf raw = do
  guard (leb forward_tsn_stream_length (length raw)) err_chunk_too_short
  (identifier, reader) ← reading (buf.get_u16 raw)
  (sequence, reader) ← reading (buf.get_u16 reader)
  ok (record { identifier = identifier; sequence = sequence })

-- The `while` loop: `remaining` counts the bytes of the whole buffer after `offset`, not those of
-- the chunk, whose end is `finish`. A call with no fuel left is taken for an abort.
unfoldable pub stream_loop :
    Buf → (fuel remaining offset finish : ℕ) → List ℕ → Result (List ChunkForwardTsnStream)
unfolding unmarshal_stream
stream_loop buf zero remaining offset finish raw = panicked
stream_loop buf (suc fuel) zero offset finish raw = ok []
stream_loop buf (suc fuel) (suc remaining) offset finish raw = do
  part ← slice offset finish raw
  s ← unmarshal_stream buf part
  streams ←
      stream_loop buf fuel (sub64 (suc remaining) forward_tsn_stream_length)
        (offset + forward_tsn_stream_length) finish raw
  ok (s ∷ streams)

unfoldable pub unmarshal : Buf → List ℕ → Result ChunkForwardTsn
unfolding stream_loop
unmarshal buf raw = do
  header ← Header.unmarshal buf raw
  guard (header.typ == ct_forward_tsn) err_chunk_type_not_forward_tsn
  let offset = chunk_header_size + new_cumulative_tsn_length
  guard (leb offset (length raw)) err_chunk_too_short
  reader ← slice chunk_header_size (chunk_header_size + header.value_length) raw
  (new_cumulative_tsn, reader) ← reading (buf.get_u32 reader)
  let remaining = length raw - offset
  streams ←
      stream_loop buf (remaining + 1) remaining offset (chunk_header_size + header.value_length) raw
  ok (record { new_cumulative_tsn = new_cumulative_tsn; streams = streams })

unfoldable pub write_streams : Buf → List ChunkForwardTsnStream → List ℕ
write_streams buf [] = []
write_streams buf (s ∷ streams) =
    buf.put_u16 s.identifier ++ (buf.put_u16 s.sequence ++ write_streams buf streams)

-- The bytes after the header.
unfoldable pub value : Buf → ChunkForwardTsn → List ℕ
unfolding write_streams
value buf c = buf.put_u32 c.new_cumulative_tsn ++ write_streams buf c.streams

unfoldable pub marshal_to : Buf → ChunkForwardTsn → List ℕ
unfolding header value
marshal_to buf c = Header.marshal_to buf (header c) ++ value buf c
