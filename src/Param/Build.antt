-- ===== src/Param/Build.antt =====
-- src/param/mod.rs and the parsers of the types that implement `Param`.
pub mod Safety
use sctp.Base.{
  ℕ, zero, suc, ◌+◌, ◌*◌, ◌-◌, ◌/◌, ◌%◌, ◌^◌, List, [], ◌∷◌, ◌++◌, length, leb, ltb, ◌==◌,
  if◌then◌else◌, ◌||◌, add16, Bool, not, true, false, take,
}
use sctp.Error.{
  Result, ok, err, panicked, ◌>>=◌, ◌>>◌, guard, reading, err_param_header_too_short,
  err_param_type_unexpected, err_invalid_algorithm_type, err_ssn_reset_request_param_too_short,
  err_reconfig_resp_param_too_short, err_param_type_unhandled,
}
use sctp.Bytes.{Buf, slice}
use sctp.Param.Kind.{
  ParamType, from_u16, to_u16, chunk_list, forward_tsn_supp, supported_ext, random, req_hmac_algo,
  state_cookie, heartbeat_info, out_ssn_reset_req, reconfig_resp, unknown_type,
}
use sctp.Param.Values.{
  Param, ParamHeader, unmarshal_header, param_header_length, HmacAlgorithm, hmac_from_u16,
  hmac_sha128, hmac_sha256, forward_tsn_supported, supported_extensions, random_param,
  requested_hmac_algorithm, chunk_list_param, state_cookie_param, heartbeat_info_param,
  outgoing_reset_request, reconfig_response, unknown_param, result_from_u32,
  stream_identifiers_offset,
}

-- A parameter whose value is all of the bytes that its header announces.
unfoldable pub unmarshal_value : Buf → List ℕ → Result (ParamType × List ℕ)
unfolding unmarshal_header
unmarshal_value buf raw = do
  header ← unmarshal_header buf raw
  value ← slice param_header_length (param_header_length + header.value_length) raw
  ok (header.typ, value)

unfoldable pub unmarshal_forward_tsn_supported : Buf → List ℕ → Result Param
unfolding unmarshal_header
unmarshal_forward_tsn_supported buf raw = do _ ← unmarshal_header buf raw; ok forward_tsn_supported

unfoldable pub unmarshal_random : Buf → List ℕ → Result Param
unfolding unmarshal_value
unmarshal_random buf raw = do
  (_, random_data) ← unmarshal_value buf raw
  ok (random_param random_data)

unfoldable pub unmarshal_state_cookie : Buf → List ℕ → Result Param
unfolding unmarshal_value
unmarshal_state_cookie buf raw = do
  (_, cookie) ← unmarshal_value buf raw
  ok (state_cookie_param cookie)

unfoldable pub unmarshal_heartbeat_info : Buf → List ℕ → Result Param
unfolding unmarshal_value
unmarshal_heartbeat_info buf raw = do
  (_, heartbeat_information) ← unmarshal_value buf raw
  ok (heartbeat_info_param heartbeat_information)

unfoldable pub unmarshal_unknown : Buf → List ℕ → Result Param
unfolding unmarshal_value to_u16
unmarshal_unknown buf raw = do
  (typ, value) ← unmarshal_value buf raw
  ok (unknown_param (to_u16 typ) value)

-- `while reader.has_remaining()`, on fuel. A call with no fuel left is taken for an abort.
unfoldable pub read_types : Buf → ℕ → List ℕ → Result (List ℕ)
read_types buf fuel [] = ok []
read_types buf zero (b ∷ reader) = panicked
read_types buf (suc fuel) (b ∷ reader) = do
  (ct, reader) ← reading (buf.get_u8 (b ∷ reader))
  types ← read_types buf fuel reader
  ok (ct ∷ types)

unfoldable pub unmarshal_supported_extensions : Buf → List ℕ → Result Param
unfolding unmarshal_value read_types
unmarshal_supported_extensions buf raw = do
  (_, value) ← unmarshal_value buf raw
  chunk_types ← read_types buf (length value) value
  ok (supported_extensions chunk_types)

abbrev pub is_chunk_list : ParamType → Bool
is_chunk_list chunk_list = true
is_chunk_list _ = false

unfoldable pub unmarshal_chunk_list : Buf → List ℕ → Result Param
unfolding unmarshal_header read_types
unmarshal_chunk_list buf raw = do
  header ← unmarshal_header buf raw
  guard (is_chunk_list header.typ) err_param_type_unexpected
  value ← slice param_header_length (param_header_length + header.value_length) raw
  chunk_types ← read_types buf (length value) value
  ok (chunk_list_param chunk_types)

abbrev pub is_supported : HmacAlgorithm → Bool
is_supported hmac_sha128 = true
is_supported hmac_sha256 = true
is_supported _ = false

-- `while offset + 1 < header.value_length()`: one round for each pair of bytes, on their number.
unfoldable pub read_algorithms : Buf → ℕ → List ℕ → Result (List HmacAlgorithm)
unfolding hmac_from_u16
read_algorithms buf zero reader = ok []
read_algorithms buf (suc n) reader = do
  (v, reader) ← reading (buf.get_u16 reader)
  let a = hmac_from_u16 v
  guard (is_supported a) err_invalid_algorithm_type
  algorithms ← read_algorithms buf n reader
  ok (a ∷ algorithms)

unfoldable pub unmarshal_requested_hmac_algorithm : Buf → List ℕ → Result Param
unfolding unmarshal_header read_algorithms
unmarshal_requested_hmac_algorithm buf raw = do
  header ← unmarshal_header buf raw
  reader ← slice param_header_length (param_header_length + header.value_length) raw
  available_algorithms ← read_algorithms buf (header.value_length / 2) reader
  ok (requested_hmac_algorithm available_algorithms)

unfoldable pub read_identifiers : Buf → ℕ → List ℕ → Result (List ℕ)
read_identifiers buf zero reader = ok []
read_identifiers buf (suc n) reader = do
  (sid, reader) ← reading (buf.get_u16 reader)
  sids ← read_identifiers buf n reader
  ok (sid ∷ sids)

unfoldable pub unmarshal_outgoing_reset_request : Buf → List ℕ → Result Param
unfolding unmarshal_header read_identifiers
unmarshal_outgoing_reset_request buf raw = do
  header ← unmarshal_header buf raw
  guard (leb stream_identifiers_offset header.value_length) err_ssn_reset_request_param_too_short
  reader ← slice param_header_length (param_header_length + header.value_length) raw
  (request, reader) ← reading (buf.get_u32 reader)
  (response, reader) ← reading (buf.get_u32 reader)
  (sender_last_tsn, reader) ← reading (buf.get_u32 reader)
  let lim = (header.value_length - stream_identifiers_offset) / 2
  stream_identifiers ← read_identifiers buf lim reader
  ok (
      outgoing_reset_request (record {
        reconfig_request_sequence_number = request;
        reconfig_response_sequence_number = response;
        sender_last_tsn = sender_last_tsn;
        stream_identifiers = stream_identifiers;
      }))

unfoldable pub unmarshal_reconfig_response : Buf → List ℕ → Result Param
unfolding unmarshal_header result_from_u32
unmarshal_reconfig_response buf raw = do
  header ← unmarshal_header buf raw
  guard (leb 8 header.value_length) err_reconfig_resp_param_too_short
  reader ← slice param_header_length (param_header_length + header.value_length) raw
  (number, reader) ← reading (buf.get_u32 reader)
  (result, reader) ← reading (buf.get_u32 reader)
  ok (
      reconfig_response
        (record { reconfig_response_sequence_number = number; result = result_from_u32 result }))

-- The parser that the parameter's type selects.
unfoldable pub dispatch : Buf → ParamType → ℕ → List ℕ → Result Param
unfolding unmarshal_forward_tsn_supported unmarshal_supported_extensions unmarshal_random
    unmarshal_requested_hmac_algorithm unmarshal_chunk_list unmarshal_state_cookie
    unmarshal_heartbeat_info unmarshal_outgoing_reset_request unmarshal_reconfig_response
    unmarshal_unknown
dispatch buf forward_tsn_supp raw_type raw = unmarshal_forward_tsn_supported buf raw
dispatch buf supported_ext raw_type raw = unmarshal_supported_extensions buf raw
dispatch buf random raw_type raw = unmarshal_random buf raw
dispatch buf req_hmac_algo raw_type raw = unmarshal_requested_hmac_algorithm buf raw
dispatch buf chunk_list raw_type raw = unmarshal_chunk_list buf raw
dispatch buf state_cookie raw_type raw = unmarshal_state_cookie buf raw
dispatch buf heartbeat_info raw_type raw = unmarshal_heartbeat_info buf raw
dispatch buf out_ssn_reset_req raw_type raw = unmarshal_outgoing_reset_request buf raw
dispatch buf reconfig_resp raw_type raw = unmarshal_reconfig_response buf raw
dispatch buf _ raw_type raw =
    if raw_type / 2 ^ 15 % 2 == 0
    then err (err_param_type_unhandled raw_type)
    else unmarshal_unknown buf raw

unfoldable pub build_param : Buf → List ℕ → Result Param
unfolding from_u16 dispatch
build_param buf raw_param = do
  guard (leb param_header_length (length raw_param)) err_param_header_too_short
  reader ← slice 0 2 raw_param
  (raw_type, reader) ← reading (buf.get_u16 reader)
  dispatch buf (from_u16 raw_type) raw_type raw_param
