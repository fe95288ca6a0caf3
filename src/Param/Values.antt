-- ===== src/Param/Values.antt =====
-- src/param: the parameters' headers, values and places on the wire. A parameter of the trait
-- `Param` is a constructor of `Param`, with the fields of the type that implements it.
use sctp.Base.{
  ℕ, ◌+◌, ◌*◌, ◌-◌, ◌%◌, ◌^◌, List, [], ◌∷◌, ◌++◌, length, leb, ltb, ◌==◌, if◌then◌else◌, ◌||◌,
  add16, not,
}
use sctp.Error.{Result, ok, ◌>>=◌, ◌>>◌, guard, reading, err_param_header_too_short}
use sctp.Bytes.{Buf}
use sctp.Param.Kind.{
  ParamType, from_u16, to_u16, chunk_list, forward_tsn_supp, supported_ext, random, req_hmac_algo,
  state_cookie, heartbeat_info, out_ssn_reset_req, reconfig_resp, unknown_type, unrecognized_param,
}

abbrev pub param_header_length : ℕ
param_header_length = 4

pub record ParamHeader : Type 0 where
  pub typ : ParamType
  pub value_length : ℕ

unfoldable pub unmarshal_header : Buf → List ℕ → Result ParamHeader
unfolding from_u16
unmarshal_header buf raw = do
  guard (leb param_header_length (length raw)) err_param_header_too_short
  (typ, reader) ← reading (buf.get_u16 raw)
  (len, reader) ← reading (buf.get_u16 reader)
  guard (not (ltb len param_header_length || ltb (length raw) len)) err_param_header_too_short
  ok (record { typ = from_u16 typ; value_length = (len - param_header_length) % 2 ^ 16 })

unfoldable pub marshal_header : Buf → ParamHeader → List ℕ
unfolding to_u16
marshal_header buf h =
    buf.put_u16 (to_u16 h.typ) ++ buf.put_u16 (add16 h.value_length param_header_length)

pub data HmacAlgorithm : Type 0 where
  hmac_resv1 hmac_sha128 hmac_resv2 hmac_sha256 unknown_algorithm : HmacAlgorithm

unfoldable pub hmac_from_u16 : ℕ → HmacAlgorithm
hmac_from_u16 v =
    if v == 0
    then hmac_resv1
    else if v == 1
    then hmac_sha128
    else if v == 2
    then hmac_resv2
    else if v == 3
    then hmac_sha256
    else unknown_algorithm

-- `as u16`.
unfoldable pub hmac_to_u16 : HmacAlgorithm → ℕ
hmac_to_u16 hmac_resv1 = 0
hmac_to_u16 hmac_sha128 = 1
hmac_to_u16 hmac_resv2 = 2
hmac_to_u16 hmac_sha256 = 3
hmac_to_u16 unknown_algorithm = 4

pub data ReconfigResult : Type 0 where
  success_nop success_performed denied error_wrong_ssn : ReconfigResult
  error_request_already_in_progress error_bad_sequence_number in_progress : ReconfigResult
  unknown_result : ReconfigResult

unfoldable pub result_from_u32 : ℕ → ReconfigResult
result_from_u32 v =
    if v == 0
    then success_nop
    else if v == 1
    then success_performed
    else if v == 2
    then denied
    else if v == 3
    then error_wrong_ssn
    else if v == 4
    then error_request_already_in_progress
    else if v == 5
    then error_bad_sequence_number
    else if v == 6
    then in_progress
    else unknown_result

-- `as u32`.
unfoldable pub result_to_u32 : ReconfigResult → ℕ
result_to_u32 success_nop = 0
result_to_u32 success_performed = 1
result_to_u32 denied = 2
result_to_u32 error_wrong_ssn = 3
result_to_u32 error_request_already_in_progress = 4
result_to_u32 error_bad_sequence_number = 5
result_to_u32 in_progress = 6
result_to_u32 unknown_result = 7

pub record ParamOutgoingResetRequest : Type 0 where
  pub reconfig_request_sequence_number : ℕ
  pub reconfig_response_sequence_number : ℕ
  pub sender_last_tsn : ℕ
  pub stream_identifiers : List ℕ

pub record ParamReconfigResponse : Type 0 where
  pub reconfig_response_sequence_number : ℕ
  pub result : ReconfigResult

pub data Param : Type 0 where
  forward_tsn_supported : Param
  supported_extensions : (chunk_types : List ℕ) → Param
  random_param : (random_data : List ℕ) → Param
  requested_hmac_algorithm : (available_algorithms : List HmacAlgorithm) → Param
  chunk_list_param : (chunk_types : List ℕ) → Param
  state_cookie_param : (cookie : List ℕ) → Param
  heartbeat_info_param : (heartbeat_information : List ℕ) → Param
  outgoing_reset_request : ParamOutgoingResetRequest → Param
  reconfig_response : ParamReconfigResponse → Param
  unknown_param : (typ : ℕ) → (value : List ℕ) → Param
  unrecognized : (param : Param) → Param

-- The length of a reset request before its stream identifiers.
abbrev pub stream_identifiers_offset : ℕ
stream_identifiers_offset = 12

unfoldable pub value_length : Param → ℕ
value_length forward_tsn_supported = 0
value_length (supported_extensions chunk_types) = length chunk_types
value_length (random_param random_data) = length random_data
value_length (requested_hmac_algorithm algorithms) = 2 * length algorithms
value_length (chunk_list_param chunk_types) = length chunk_types
value_length (state_cookie_param cookie) = length cookie
value_length (heartbeat_info_param information) = length information
value_length (outgoing_reset_request p) =
    stream_identifiers_offset + length p.stream_identifiers * 2
value_length (reconfig_response p) = 8
value_length (unknown_param typ value) = length value
value_length (unrecognized param) = value_length param + param_header_length

unfoldable pub typ_of : Param → ParamType
typ_of forward_tsn_supported = forward_tsn_supp
typ_of (supported_extensions chunk_types) = supported_ext
typ_of (random_param random_data) = random
typ_of (requested_hmac_algorithm algorithms) = req_hmac_algo
typ_of (chunk_list_param chunk_types) = chunk_list
typ_of (state_cookie_param cookie) = state_cookie
typ_of (heartbeat_info_param information) = heartbeat_info
typ_of (outgoing_reset_request p) = out_ssn_reset_req
typ_of (reconfig_response p) = reconfig_resp
typ_of (unknown_param typ value) = unknown_type typ
typ_of (unrecognized param) = unrecognized_param

unfoldable pub header : Param → ParamHeader
unfolding value_length typ_of
header p = record { typ = typ_of p; value_length = value_length p % 2 ^ 16 }

unfoldable pub write_algorithms : Buf → List HmacAlgorithm → List ℕ
unfolding hmac_to_u16
write_algorithms buf [] = []
write_algorithms buf (a ∷ algorithms) =
    buf.put_u16 (hmac_to_u16 a) ++ write_algorithms buf algorithms

unfoldable pub write_identifiers : Buf → List ℕ → List ℕ
write_identifiers buf [] = []
write_identifiers buf (sid ∷ sids) = buf.put_u16 sid ++ write_identifiers buf sids

unfoldable pub write_types : Buf → List ℕ → List ℕ
write_types buf [] = []
write_types buf (ct ∷ types) = buf.put_u8 ct ++ write_types buf types

-- The bytes after the header.
unfoldable pub value : Buf → Param → List ℕ
unfolding write_algorithms write_identifiers write_types result_to_u32 marshal_header header
value buf forward_tsn_supported = []
value buf (supported_extensions chunk_types) = write_types buf chunk_types
value buf (random_param random_data) = random_data
value buf (requested_hmac_algorithm algorithms) = write_algorithms buf algorithms
value buf (chunk_list_param chunk_types) = write_types buf chunk_types
value buf (state_cookie_param cookie) = cookie
value buf (heartbeat_info_param information) = information
value buf (outgoing_reset_request p) =
    buf.put_u32 p.reconfig_request_sequence_number
    ++ (buf.put_u32 p.reconfig_response_sequence_number
        ++ (buf.put_u32 p.sender_last_tsn ++ write_identifiers buf p.stream_identifiers))
value buf (reconfig_response p) =
    buf.put_u32 p.reconfig_response_sequence_number ++ buf.put_u32 (result_to_u32 p.result)
value buf (unknown_param typ bytes) = bytes
value buf (unrecognized param) = marshal_header buf (header param) ++ value buf param

unfoldable pub marshal : Buf → Param → List ℕ
unfolding marshal_header header value
marshal buf p = marshal_header buf (header p) ++ value buf p
