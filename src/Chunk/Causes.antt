-- ===== src/Chunk/Causes.antt =====
-- src/error_cause.rs, src/chunk/chunk_abort.rs and src/chunk/chunk_error.rs: error causes and the
-- two chunks that carry them. The loop of the two parsers is the same, and runs on fuel, one more
-- than the length of the buffer, which is enough, as a cause has four bytes at least.
use sctp.Base.{
  ℕ, zero, suc, ◌+◌, ◌-◌, ◌%◌, ◌^◌, List, [], ◌∷◌, ◌++◌, length, leb, ◌==◌, true, false,
}
use sctp.Error.{
  Result, ok, panicked, ◌>>=◌, ◌>>◌, guard, reading, Error, err_error_cause_too_small,
  err_chunk_type_not_abort, err_chunk_type_not_ct_error,
}
use sctp.Bytes.{Buf, slice}
use sctp.Chunk.Header
use sctp.Chunk.Header.{ChunkHeader, ct_abort, ct_error, chunk_header_size}

pub record ErrorCause : Type 0 where
  pub code : ℕ
  pub raw : List ℕ

abbrev pub error_cause_header_length : ℕ
error_cause_header_length = 4

unfoldable pub unmarshal_cause : Buf → List ℕ → Result ErrorCause
unmarshal_cause buf raw = do
  guard (leb error_cause_header_length (length raw)) err_error_cause_too_small
  (code, reader) ← reading (buf.get_u16 raw)
  (len, reader) ← reading (buf.get_u16 reader)
  guard (leb error_cause_header_length len) err_error_cause_too_small
  guard (leb len (length raw)) err_error_cause_too_small
  let value_length = len - error_cause_header_length
  part ← slice error_cause_header_length (error_cause_header_length + value_length) raw
  ok (record { code = code; raw = part })

unfoldable pub cause_length : ErrorCause → ℕ
cause_length e = length e.raw + error_cause_header_length

unfoldable pub marshal_cause : Buf → ErrorCause → List ℕ
unfolding cause_length
marshal_cause buf e = buf.put_u16 e.code ++ (buf.put_u16 (cause_length e % 2 ^ 16) ++ e.raw)

unfoldable pub cause_loop : Buf → (fuel offset finish : ℕ) → List ℕ → Result (List ErrorCause)
unfolding unmarshal_cause cause_length
cause_loop buf zero offset finish raw = panicked
cause_loop buf (suc fuel) offset finish raw = elim (leb (offset + 4) (length raw)) [
  | false ↦ ok []
  | true ↦ do
    part ← slice offset finish raw
    e ← unmarshal_cause buf part
    causes ← cause_loop buf fuel (offset + cause_length e) finish raw
    ok (e ∷ causes)
]

-- The parsers of ABORT and ERROR, which differ in the chunk's type and the error.
unfoldable pub unmarshal_causes : Buf → ℕ → Error → List ℕ → Result (List ErrorCause)
unfolding cause_loop
unmarshal_causes buf typ e raw = do
  header ← Header.unmarshal buf raw
  guard (header.typ == typ) e
  cause_loop buf (length raw + 1) chunk_header_size (chunk_header_size + header.value_length) raw

unfoldable pub unmarshal_abort : Buf → List ℕ → Result (List ErrorCause)
unfolding unmarshal_causes
unmarshal_abort buf raw = unmarshal_causes buf ct_abort err_chunk_type_not_abort raw

unfoldable pub unmarshal_error : Buf → List ℕ → Result (List ErrorCause)
unfolding unmarshal_causes
unmarshal_error buf raw = unmarshal_causes buf ct_error err_chunk_type_not_ct_error raw

unfoldable pub causes_length : List ErrorCause → ℕ
unfolding cause_length
causes_length [] = 0
causes_length (e ∷ causes) = cause_length e + causes_length causes

unfoldable pub write_causes : Buf → List ErrorCause → List ℕ
unfolding marshal_cause
write_causes buf [] = []
write_causes buf (e ∷ causes) = marshal_cause buf e ++ write_causes buf causes

unfoldable pub marshal_causes : Buf → ℕ → List ErrorCause → List ℕ
unfolding causes_length write_causes
marshal_causes buf typ causes =
    Header.marshal_to buf
      (record { typ = typ; flags = 0; value_length = causes_length causes % 2 ^ 16 })
    ++ write_causes buf causes
