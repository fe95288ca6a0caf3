-- ===== src/Chunk/Header.antt =====
-- src/chunk/chunk_header.rs and the constants of src/chunk/chunk_type.rs: the four bytes that every
-- chunk begins with. `marshal_to` is the bytes that the call appends to its writer.
pub mod Reads
use sctp.Base.{
  ℕ, zero, suc, ◌+◌, ◌-◌, ◌≡◌, refl, List, ◌∷◌, [], ◌++◌, Option, none, some, length, drop, take,
  if◌then◌else◌, leb, ltb, ◌==◌, Bool, true, false, not, add16, ◌&&◌,
}
use sctp.Error.{
  Result, ok, err, panicked, ◌>>=◌, ◌>>◌, guard, reading, Error, err_chunk_header_too_small,
  err_chunk_header_invalid_length, err_chunk_header_not_enough_space,
  err_chunk_header_padding_non_zero,
}
use sctp.Bytes.{Buf}

abbrev pub ct_payload_data : ℕ
ct_payload_data = 0

abbrev pub ct_init : ℕ
ct_init = 1

abbrev pub ct_init_ack : ℕ
ct_init_ack = 2

abbrev pub ct_sack : ℕ
ct_sack = 3

abbrev pub ct_heartbeat : ℕ
ct_heartbeat = 4

abbrev pub ct_heartbeat_ack : ℕ
ct_heartbeat_ack = 5

abbrev pub ct_abort : ℕ
ct_abort = 6

abbrev pub ct_shutdown : ℕ
ct_shutdown = 7

abbrev pub ct_shutdown_ack : ℕ
ct_shutdown_ack = 8

abbrev pub ct_error : ℕ
ct_error = 9

abbrev pub ct_cookie_echo : ℕ
ct_cookie_echo = 10

abbrev pub ct_cookie_ack : ℕ
ct_cookie_ack = 11

abbrev pub ct_shutdown_complete : ℕ
ct_shutdown_complete = 14

abbrev pub ct_reconfig : ℕ
ct_reconfig = 130

abbrev pub ct_forward_tsn : ℕ
ct_forward_tsn = 192

pub record ChunkHeader : Type 0 where
  pub typ : ℕ
  pub flags : ℕ
  pub value_length : ℕ

abbrev pub chunk_header_size : ℕ
chunk_header_size = 4

-- `raw[i]`, which aborts past the end.
unfoldable pub index : ℕ → List ℕ → Result ℕ
index i [] = panicked
index zero (b ∷ raw) = ok b
index (suc i) (b ∷ raw) = index i raw

-- The loop over the last `i` bytes of the buffer, from its end.
unfoldable pub check_padding : ℕ → ℕ → List ℕ → Result (Unit {0})
unfolding index
check_padding value_length zero raw = ok tt
check_padding value_length (suc i) raw = do
  b ← index (chunk_header_size + (value_length + suc i - 1)) raw
  guard (b == 0) err_chunk_header_padding_non_zero
  check_padding value_length i raw

unfoldable pub unmarshal : Buf → List ℕ → Result ChunkHeader
unfolding check_padding
unmarshal buf raw = do
  guard (leb chunk_header_size (length raw)) err_chunk_header_too_small
  (typ, reader) ← reading (buf.get_u8 raw)
  (flags, reader) ← reading (buf.get_u8 reader)
  (len, reader) ← reading (buf.get_u16 reader)
  guard (leb chunk_header_size len) err_chunk_header_invalid_length
  guard (leb len (length raw)) err_chunk_header_invalid_length
  let value_length = len - chunk_header_size
  guard (leb len (length raw)) err_chunk_header_not_enough_space
  if ltb (length raw - len) 4 then check_padding value_length (length raw - len) raw else ok tt
  ok (record { typ = typ; flags = flags; value_length = len - chunk_header_size })

unfoldable pub marshal_to : Buf → ChunkHeader → List ℕ
marshal_to buf h =
    buf.put_u8 h.typ ++ (buf.put_u8 h.flags ++ buf.put_u16 (add16 h.value_length chunk_header_size))
