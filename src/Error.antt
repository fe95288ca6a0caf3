-- ===== src/Error.antt =====
-- src/error.rs: the errors, and the outcome of fallible code.
-- `panicked` is the outcome of code that aborts: an index or a slice out of range, or a read past
-- the end of a buffer. A text is the list of its bytes.
pub mod Outcomes
use sctp.Base.{ℕ, Bool, true, false, Option, none, some, List}

pub data Error : Type 0 where
  err_chunk_header_too_small err_chunk_header_not_enough_space : Error
  err_chunk_header_padding_non_zero err_chunk_header_invalid_length : Error
  err_chunk_type_not_abort err_build_abort_chunk_failed err_chunk_type_not_cookie_ack : Error
  err_chunk_type_not_cookie_echo err_chunk_type_not_ct_error err_build_error_chunk_failed : Error
  err_marshal_stream_failed err_chunk_too_short err_chunk_type_not_forward_tsn : Error
  err_chunk_type_not_heartbeat err_chunk_type_not_heartbeat_ack : Error
  err_heartbeat_not_long_enough_info err_parse_param_type_failed err_heartbeat_param : Error
  err_heartbeat_chunk_unmarshal err_unimplemented err_heartbeat_ack_params : Error
  err_heartbeat_ack_not_heartbeat_info err_heartbeat_ack_marshal_param : Error
  err_error_cause_too_small err_param_type_unexpected err_param_header_too_short : Error
  err_param_header_self_reported_length_shorter : Error
  err_param_header_self_reported_length_longer err_param_header_parse_failed : Error
  err_param_packet_too_short err_ssn_reset_request_param_too_short : Error
  err_reconfig_resp_param_too_short err_invalid_algorithm_type : Error
  err_init_chunk_parse_param_type_failed err_init_chunk_unmarshal_param : Error
  err_init_ack_marshal_param err_chunk_type_not_type_init err_chunk_value_not_long_enough : Error
  err_chunk_type_init_flag_zero err_chunk_type_init_unmarshal_failed : Error
  err_chunk_type_init_marshal_failed err_chunk_type_init_initate_tag_zero : Error
  err_init_inbound_stream_request_zero err_init_outbound_stream_request_zero : Error
  err_init_advertised_receiver1500 err_chunk_payload_small err_chunk_type_not_payload_data : Error
  err_chunk_type_not_reconfig err_chunk_reconfig_invalid_param_a : Error
  err_chunk_parse_param_type_failed err_chunk_marshal_param_a_reconfig_failed : Error
  err_chunk_marshal_param_b_reconfig_failed err_chunk_type_not_sack : Error
  err_sack_size_not_large_enough_info err_invalid_chunk_size err_chunk_type_not_shutdown : Error
  err_chunk_type_not_shutdown_ack err_chunk_type_not_shutdown_complete : Error
  err_packet_raw_too_small err_parse_sctp_chunk_not_enough_data : Error
  err_unmarshal_unknown_chunk_type err_checksum_mismatch : Error
  err_unexpected_chuck_popped_unordered err_unexpected_chuck_popped_ordered : Error
  err_unexpected_q_state err_try_again err_chunk err_shutdown_non_established : Error
  err_association_closed_before_conn err_association_init_failed : Error
  err_association_handshake_closed err_silently_discard err_init_not_stored_to_send : Error
  err_cookie_echo_not_stored_to_send err_sctp_packet_source_port_zero : Error
  err_sctp_packet_destination_port_zero err_init_chunk_bundled : Error
  err_init_chunk_verify_tag_not_zero err_handle_init_state err_init_ack_no_cookie : Error
  err_stream_already_exist err_stream_create_failed err_inflight_queue_tsn_pop : Error
  err_tsn_request_not_exist err_reset_packet_in_state_not_exist err_paramter_type : Error
  err_payload_data_state_not_exist err_chunk_type_unhandled err_handshake_init_ack : Error
  err_handshake_cookie_echo err_outbound_packet_too_large err_stream_closed : Error
  err_short_buffer err_eof err_invalid_system_time err_net_conn_read_error : Error
  err_max_data_channel_id : Error
  err_param_type_unhandled : (typ : ℕ) → Error
  other : List ℕ → Error

-- The kinds of `std::io::Error` that an error becomes.
pub data ErrorKind : Type 0 where
  unexpected_eof connection_aborted other_kind : ErrorKind

unfoldable pub io_kind : Error → ErrorKind
io_kind err_eof = unexpected_eof
io_kind err_stream_closed = connection_aborted
io_kind e = other_kind

-- The outcome of fallible code.
pub data Result {ℓ} (V : Type ℓ) : Type ℓ where
  ok : V → Result V
  err : Error → Result V
  panicked : Result V

-- `?` on an outcome: what follows runs on the value, and an error or an abort ends the code.
infixl 5 ◌>>=◌
abbrev pub ◌>>=◌ {ℓ κ} : {V : Type ℓ} {W : Type κ} → Result V → (V → Result W) → Result W
panicked >>= rest = panicked
err failure >>= rest = err failure
ok value >>= rest = rest value

-- A read that aborts the program when the buffer is too short.
abbrev pub reading {ℓ} : {V : Type ℓ} → Option V → Result V
reading none = panicked
reading (some value) = ok value

-- An early return with an error, where the code's test fails.
abbrev pub guard : Bool → Error → Result (Unit {0})
guard false failure = err failure
guard true failure = ok tt

infixl 5 ◌>>◌
abbrev pub ◌>>◌ {ℓ} : {W : Type ℓ} → Result (Unit {0}) → Result W → Result W
first >> rest = first >>= λ _. rest
