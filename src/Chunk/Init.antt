-- ===== src/Chunk/Init.antt =====
-- src/chunk/chunk_init.rs: the INIT and INIT ACK chunks. The loop of the parser runs on fuel, one
-- more than the bytes that it counts as remaining, which is enough, as a parameter has four bytes
-- at least. `remaining` is signed in the source, and stops here at zero: the loop ends at four.
pub mod Parse
use sctp.Base.{
  ℕ, zero, suc, ◌+◌, ◌-◌, ◌%◌, ◌^◌, List, [], ◌∷◌, ◌++◌, length, leb, ltb, ◌==◌, ◌||◌, Bool, true,
  false, not, if◌then◌else◌,
}
use sctp.Error.{
  Result, ok, panicked, ◌>>=◌, ◌>>◌, guard, reading, err_chunk_type_not_type_init,
  err_chunk_value_not_long_enough, err_chunk_type_init_flag_zero,
  err_chunk_type_init_initate_tag_zero, err_init_inbound_stream_request_zero,
  err_init_outbound_stream_request_zero, err_init_advertised_receiver1500,
}
use sctp.Bytes.{Buf, slice}
use sctp.Sna.{get_padding_size}
use sctp.Param.Values.{Param, param_header_length, supported_extensions}
use sctp.Param.Values
use sctp.Param.Build.{build_param}
use sctp.Chunk.Header
use sctp.Chunk.Header.{
  ChunkHeader, ct_init, ct_init_ack, ct_reconfig, ct_forward_tsn, chunk_header_size,
}

pub record ChunkInit : Type 0 where
  pub is_ack : Bool
  pub initiate_tag : ℕ
  pub advertised_receiver_window_credit : ℕ
  pub num_outbound_streams : ℕ
  pub num_inbound_streams : ℕ
  pub initial_tsn : ℕ
  pub params : List Param

abbrev pub init_chunk_min_length : ℕ
init_chunk_min_length = 16

abbrev pub init_optional_var_header_length : ℕ
init_optional_var_header_length = 4

-- The bytes that the parameters take: each but the last is padded.
unfoldable pub params_length : List Param → ℕ
unfolding get_padding_size
params_length [] = 0
params_length (p ∷ []) = param_header_length + Values.value_length p
params_length (p ∷ q ∷ ps) =
    let p_len = param_header_length + Values.value_length p in
    p_len + get_padding_size p_len + params_length (q ∷ ps)

unfoldable pub value_length : ChunkInit → ℕ
unfolding params_length
value_length c = 4 + 4 + 2 + 2 + 4 + params_length c.params

unfoldable pub header : ChunkInit → ChunkHeader
unfolding value_length
header c = record {
  typ = if c.is_ack then ct_init_ack else ct_init;
  flags = 0;
  value_length = value_length c % 2 ^ 16;
}

unfoldable pub param_loop : Buf → (fuel remaining offset finish : ℕ) → List ℕ → Result (List Param)
unfolding get_padding_size
param_loop buf zero remaining offset finish raw = panicked
param_loop buf (suc fuel) remaining offset finish raw =
    elim (ltb init_optional_var_header_length remaining) [
      | false ↦ ok []
      | true ↦ do
        part ← slice offset finish raw
        p ← build_param buf part
        let p_len = param_header_length + Values.value_length p
        let len_plus_padding = p_len + get_padding_size p_len
        params ←
            param_loop buf fuel (remaining - len_plus_padding) (offset + len_plus_padding) finish
              raw
        ok (p ∷ params)
    ]

unfoldable pub unmarshal : Buf → List ℕ → Result ChunkInit
unfolding param_loop
unmarshal buf raw = do
  header ← Header.unmarshal buf raw
  guard (header.typ == ct_init || header.typ == ct_init_ack) err_chunk_type_not_type_init
  guard (leb init_chunk_min_length header.value_length) err_chunk_value_not_long_enough
  guard (header.flags == 0) err_chunk_type_init_flag_zero
  reader ← slice chunk_header_size (chunk_header_size + header.value_length) raw
  (initiate_tag, reader) ← reading (buf.get_u32 reader)
  (advertised_receiver_window_credit, reader) ← reading (buf.get_u32 reader)
  (num_outbound_streams, reader) ← reading (buf.get_u16 reader)
  (num_inbound_streams, reader) ← reading (buf.get_u16 reader)
  (initial_tsn, reader) ← reading (buf.get_u32 reader)
  let offset = chunk_header_size + init_chunk_min_length
  let remaining = length raw - offset
  params ←
      param_loop buf (remaining + 1) remaining offset (chunk_header_size + header.value_length) raw
  ok (record {
    is_ack = header.typ == ct_init_ack;
    initiate_tag = initiate_tag;
    advertised_receiver_window_credit = advertised_receiver_window_credit;
    num_outbound_streams = num_outbound_streams;
    num_inbound_streams = num_inbound_streams;
    initial_tsn = initial_tsn;
    params = params;
  })

-- `vec![0u8; n]`.
unfoldable pub zeroes : ℕ → List ℕ
zeroes zero = []
zeroes (suc n) = 0 ∷ zeroes n

unfoldable pub write_params : Buf → List Param → List ℕ
unfolding get_padding_size zeroes
write_params buf [] = []
write_params buf (p ∷ []) = Values.marshal buf p
write_params buf (p ∷ q ∷ ps) =
    let pp = Values.marshal buf p in
    pp ++ (zeroes (get_padding_size (length pp)) ++ write_params buf (q ∷ ps))

-- The bytes after the header.
unfoldable pub value : Buf → ChunkInit → List ℕ
unfolding write_params
value buf c =
    buf.put_u32 c.initiate_tag
    ++ (buf.put_u32 c.advertised_receiver_window_credit
        ++ (buf.put_u16 c.num_outbound_streams
            ++ (buf.put_u16 c.num_inbound_streams
                ++ (buf.put_u32 c.initial_tsn ++ write_params buf c.params))))

unfoldable pub marshal_to : Buf → ChunkInit → List ℕ
unfolding header value
marshal_to buf c = Header.marshal_to buf (header c) ++ value buf c

unfoldable pub check : ChunkInit → Result (Unit {0})
check c = do
  guard (not (c.initiate_tag == 0)) err_chunk_type_init_initate_tag_zero
  guard (not (c.num_inbound_streams == 0)) err_init_inbound_stream_request_zero
  guard (not (c.num_outbound_streams == 0)) err_init_outbound_stream_request_zero
  guard (leb 1500 c.advertised_receiver_window_credit) err_init_advertised_receiver1500

unfoldable pub set_supported_extensions : ChunkInit → ChunkInit
set_supported_extensions c = record c {
  params = c.params ++ (supported_extensions (ct_reconfig ∷ ct_forward_tsn ∷ []) ∷ []);
}
