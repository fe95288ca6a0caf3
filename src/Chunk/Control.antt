-- ===== src/Chunk/Control.antt =====
-- src/chunk: the HEARTBEAT, SHUTDOWN and COOKIE chunks, and the chunks of unknown type.
pub mod RoundTrip
use sctp.Base.{
  ℕ, ◌+◌, ◌-◌, ◌%◌, ◌^◌, List, [], ◌∷◌, ◌++◌, length, leb, ltb, ◌==◌, Bool, true, false,
}
use sctp.Error.{
  Result, ok, err, ◌>>=◌, ◌>>◌, guard, reading, Error, err_chunk_type_not_shutdown,
  err_invalid_chunk_size, err_chunk_type_not_shutdown_ack, err_chunk_type_not_shutdown_complete,
  err_chunk_type_not_cookie_ack, err_chunk_type_not_cookie_echo, err_chunk_type_not_heartbeat,
  err_heartbeat_not_long_enough_info, err_heartbeat_param, err_chunk_type_not_heartbeat_ack,
  err_heartbeat_ack_not_heartbeat_info, err_heartbeat_ack_params,
}
use sctp.Bytes.{Buf, slice}
use sctp.Param.Kind.{ParamType, heartbeat_info}
use sctp.Param.Values.{Param, param_header_length, typ_of}
use sctp.Param.Values
use sctp.Param.Build.{build_param}
use sctp.Chunk.Header
use sctp.Chunk.Header.{
  ChunkHeader, ct_heartbeat, ct_heartbeat_ack, ct_shutdown, ct_shutdown_ack, ct_shutdown_complete,
  ct_cookie_ack, ct_cookie_echo, chunk_header_size,
}

-- SHUTDOWN.
pub record ChunkShutdown : Type 0 where
  pub cumulative_tsn_ack : ℕ

abbrev pub cumulative_tsn_ack_length : ℕ
cumulative_tsn_ack_length = 4

unfoldable pub unmarshal_shutdown : Buf → List ℕ → Result ChunkShutdown
unmarshal_shutdown buf raw = do
  header ← Header.unmarshal buf raw
  guard (header.typ == ct_shutdown) err_chunk_type_not_shutdown
  guard (length raw == chunk_header_size + cumulative_tsn_ack_length) err_invalid_chunk_size
  reader ← slice chunk_header_size (chunk_header_size + header.value_length) raw
  (cumulative_tsn_ack, reader) ← reading (buf.get_u32 reader)
  ok (record { cumulative_tsn_ack = cumulative_tsn_ack })

unfoldable pub marshal_shutdown : Buf → ChunkShutdown → List ℕ
marshal_shutdown buf c =
    Header.marshal_to buf
      (record { typ = ct_shutdown; flags = 0; value_length = cumulative_tsn_ack_length })
    ++ buf.put_u32 c.cumulative_tsn_ack

-- A chunk without a value: SHUTDOWN ACK, SHUTDOWN COMPLETE and COOKIE ACK. A value is ignored.
unfoldable pub unmarshal_empty : Buf → ℕ → Error → List ℕ → Result (Unit {0})
unmarshal_empty buf typ e raw = do header ← Header.unmarshal buf raw; guard (header.typ == typ) e

unfoldable pub unmarshal_shutdown_ack : Buf → List ℕ → Result (Unit {0})
unfolding unmarshal_empty
unmarshal_shutdown_ack buf raw =
    unmarshal_empty buf ct_shutdown_ack err_chunk_type_not_shutdown_ack raw

unfoldable pub unmarshal_shutdown_complete : Buf → List ℕ → Result (Unit {0})
unfolding unmarshal_empty
unmarshal_shutdown_complete buf raw =
    unmarshal_empty buf ct_shutdown_complete err_chunk_type_not_shutdown_complete raw

unfoldable pub unmarshal_cookie_ack : Buf → List ℕ → Result (Unit {0})
unfolding unmarshal_empty
unmarshal_cookie_ack buf raw = unmarshal_empty buf ct_cookie_ack err_chunk_type_not_cookie_ack raw

unfoldable pub marshal_empty : Buf → ℕ → List ℕ
marshal_empty buf typ = Header.marshal_to buf (record { typ = typ; flags = 0; value_length = 0 })

-- COOKIE ECHO.
pub record ChunkCookieEcho : Type 0 where
  pub cookie : List ℕ

unfoldable pub unmarshal_cookie_echo : Buf → List ℕ → Result ChunkCookieEcho
unmarshal_cookie_echo buf raw = do
  header ← Header.unmarshal buf raw
  guard (header.typ == ct_cookie_echo) err_chunk_type_not_cookie_echo
  cookie ← slice chunk_header_size (chunk_header_size + header.value_length) raw
  ok (record { cookie = cookie })

unfoldable pub marshal_cookie_echo : Buf → ChunkCookieEcho → List ℕ
marshal_cookie_echo buf c =
    Header.marshal_to buf
      (record { typ = ct_cookie_echo; flags = 0; value_length = length c.cookie % 2 ^ 16 })
    ++ c.cookie

-- HEARTBEAT: the chunk's list of parameters has one.
abbrev pub is_heartbeat_info : ParamType → Bool
is_heartbeat_info heartbeat_info = true
is_heartbeat_info _ = false

unfoldable pub unmarshal_heartbeat : Buf → List ℕ → Result (List Param)
unfolding typ_of
unmarshal_heartbeat buf raw = do
  header ← Header.unmarshal buf raw
  guard (header.typ == ct_heartbeat) err_chunk_type_not_heartbeat
  guard (ltb chunk_header_size (length raw)) err_heartbeat_not_long_enough_info
  part ← slice chunk_header_size (chunk_header_size + header.value_length) raw
  p ← build_param buf part
  guard (is_heartbeat_info (typ_of p)) err_heartbeat_param
  ok (p ∷ [])

unfoldable pub params_length : List Param → ℕ
params_length [] = 0
params_length (p ∷ ps) = param_header_length + Values.value_length p + params_length ps

unfoldable pub write_params : Buf → List Param → List ℕ
write_params buf [] = []
write_params buf (p ∷ ps) = Values.marshal buf p ++ write_params buf ps

unfoldable pub marshal_heartbeat : Buf → List Param → List ℕ
unfolding params_length write_params
marshal_heartbeat buf params =
    Header.marshal_to buf
      (record { typ = ct_heartbeat; flags = 0; value_length = params_length params % 2 ^ 16 })
    ++ write_params buf params

-- HEARTBEAT ACK, which is written with one parameter only.
unfoldable pub unmarshal_heartbeat_ack : Buf → List ℕ → Result (List Param)
unfolding typ_of
unmarshal_heartbeat_ack buf raw = do
  header ← Header.unmarshal buf raw
  guard (header.typ == ct_heartbeat_ack) err_chunk_type_not_heartbeat_ack
  guard (ltb chunk_header_size (length raw)) err_heartbeat_not_long_enough_info
  part ← slice chunk_header_size (chunk_header_size + header.value_length) raw
  p ← build_param buf part
  guard (is_heartbeat_info (typ_of p)) err_heartbeat_param
  ok (p ∷ [])

unfoldable pub marshal_heartbeat_ack : Buf → List Param → Result (List ℕ)
unfolding typ_of
marshal_heartbeat_ack buf (p ∷ []) = do
  guard (is_heartbeat_info (typ_of p)) err_heartbeat_ack_not_heartbeat_info
  ok (
      Header.marshal_to buf (record {
        typ = ct_heartbeat_ack;
        flags = 0;
        value_length = (param_header_length + Values.value_length p) % 2 ^ 16;
      })
      ++ Values.marshal buf p)
marshal_heartbeat_ack buf _ = err err_heartbeat_ack_params

-- A chunk of a type that the program does not know.
pub record ChunkUnknown : Type 0 where
  pub hdr : ChunkHeader
  pub value : List ℕ

unfoldable pub unmarshal_unknown : Buf → List ℕ → Result ChunkUnknown
unmarshal_unknown buf raw = do
  header ← Header.unmarshal buf raw
  value ← slice chunk_header_size (chunk_header_size + header.value_length) raw
  ok (record { hdr = header; value = value })

unfoldable pub marshal_unknown : Buf → ChunkUnknown → List ℕ
marshal_unknown buf c = Header.marshal_to buf c.hdr ++ c.value
