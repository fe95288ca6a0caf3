-- ===== src/Chunk/Reconfig.antt =====
-- src/chunk/chunk_reconfig.rs: the RE-CONFIG chunk, of one or two parameters.
use sctp.Base.{ℕ, ◌+◌, ◌%◌, ◌^◌, List, ◌++◌, ltb, ◌==◌, Option, none, some, true, false}
use sctp.Error.{
  Result, ok, err, ◌>>=◌, ◌>>◌, guard, err_chunk_type_not_reconfig,
  err_chunk_reconfig_invalid_param_a,
}
use sctp.Bytes.{Buf, slice}
use sctp.Sna.{get_padding_size}
use sctp.Param.Values.{Param, param_header_length}
use sctp.Param.Values
use sctp.Param.Build.{build_param}
use sctp.Chunk.Header
use sctp.Chunk.Header.{ChunkHeader, ct_reconfig, chunk_header_size}
use sctp.Chunk.Init.{zeroes}

pub record ChunkReconfig : Type 0 where
  pub param_a : Option Param
  pub param_b : Option Param

unfoldable pub length_a : Option Param → ℕ
length_a none = 0
length_a (some a) = Values.value_length a

unfoldable pub value_length : ChunkReconfig → ℕ
unfolding get_padding_size length_a
value_length c =
    let a = length_a c.param_a in
    elim c.param_b [
      | none ↦ param_header_length + a
      | some b ↦
          param_header_length
          + a
          + (param_header_length
              + Values.value_length b
              + get_padding_size (param_header_length + a))
    ]

unfoldable pub header : ChunkReconfig → ChunkHeader
unfolding value_length
header c = record { typ = ct_reconfig; flags = 0; value_length = value_length c % 2 ^ 16 }

unfoldable pub read_param_b : Buf → (offset finish : ℕ) → List ℕ → Result (Option Param)
read_param_b buf offset finish raw = elim (ltb offset finish) [
  | false ↦ ok none
  | true ↦ do part ← slice offset finish raw; p ← build_param buf part; ok (some p)
]

unfoldable pub unmarshal : Buf → List ℕ → Result ChunkReconfig
unfolding get_padding_size read_param_b
unmarshal buf raw = do
  header ← Header.unmarshal buf raw
  guard (header.typ == ct_reconfig) err_chunk_type_not_reconfig
  part ← slice chunk_header_size (chunk_header_size + header.value_length) raw
  param_a ← build_param buf part
  let padding = get_padding_size (param_header_length + Values.value_length param_a)
  let offset = chunk_header_size + param_header_length + Values.value_length param_a + padding
  param_b ← read_param_b buf offset (chunk_header_size + header.value_length) raw
  ok (record { param_a = some param_a; param_b = param_b })

unfoldable pub marshal_to : Buf → ChunkReconfig → Result (List ℕ)
unfolding header get_padding_size zeroes
marshal_to buf c = elim c.param_a [
  | none ↦ err err_chunk_reconfig_invalid_param_a
  | some a ↦ elim c.param_b [
    | none ↦ ok (Header.marshal_to buf (header c) ++ Values.marshal buf a)
    | some b ↦ ok (
        Header.marshal_to buf (header c)
        ++ (Values.marshal buf a
            ++ (zeroes (get_padding_size (param_header_length + Values.value_length a))
                ++ Values.marshal buf b)))
  ]
]
