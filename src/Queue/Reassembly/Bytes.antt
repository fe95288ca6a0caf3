-- ===== src/Queue/Reassembly/Bytes.antt =====
-- The byte counter of the reassembly queue, and what `read` copies out.
use mathlib.Core.List.{append_assoc, append-nil}
use sctp.Base.{
  ℕ, ◌+◌, ◌-◌, ◌≤◌, ◌<◌, ◌≡◌, refl, ap, ◌∙◌, true, false, List, [], ◌∷◌, ◌++◌, arith, length,
  length-append, take, take-append_le, take-append_ge, take-all, if◌then◌else◌, ltb, leb, min,
  Bool-cases, leb→le, inl, inr,
}
use sctp.Error.{ok, err, err_short_buffer}
use sctp.Chunk.PayloadData.{ChunkPayloadData, PayloadProtocolIdentifier}
use sctp.Queue.Reassembly.{ReassemblyQueue, ReadResult, subtract_num_bytes, copy_loop, chunk_bytes}

-- The data of a list of fragments, put together.
abbrev pub payload : List ChunkPayloadData → List ℕ
payload [] = []
payload (c ∷ cs) = c.user_data ++ payload cs

pub length-payload : (cs : List ChunkPayloadData) → length (payload cs) ≡ chunk_bytes cs
length-payload [] = refl
length-payload (c ∷ cs) = omega (arith, length-append c.user_data (payload cs), length-payload cs)

pub subtract_num_bytes_lem :
    (q : ReassemblyQueue) (n : ℕ) → subtract_num_bytes q n ≡ record q { n_bytes = q.n_bytes - n }
unfolding subtract_num_bytes
subtract_num_bytes_lem q n = ground arith

abbrev pub uncounted : ReassemblyQueue → ℕ → ReassemblyQueue
uncounted q n = record q { n_bytes = q.n_bytes - n }

uncounted_twice :
    (q : ReassemblyQueue) (m n : ℕ) → uncounted (uncounted q m) n ≡ uncounted q (m + n)
uncounted_twice q m n = ap (λ k. record q { n_bytes = k }) (omega arith)

-- The result once a fragment did not fit: the rest is uncounted and dropped.
copy_loop_short :
    (cs : List ChunkPayloadData) (buf_len : ℕ) (ppi : PayloadProtocolIdentifier)
    (q : ReassemblyQueue) (written : List ℕ)
    → copy_loop buf_len ppi q written true cs ≡ record {
      queue = uncounted q (chunk_bytes cs);
      written = written;
      outcome = err err_short_buffer;
    }
unfolding copy_loop
copy_loop_short [] buf_len ppi q written = ground arith
copy_loop_short (c ∷ cs) buf_len ppi q written =
    copy_loop_short cs buf_len ppi (subtract_num_bytes q (length c.user_data)) written
    ∙ rw (subtract_num_bytes_lem q (length c.user_data), uncounted_twice)

-- What the loop gives for all fragments at once.
abbrev pub copied :
    ℕ → PayloadProtocolIdentifier → ReassemblyQueue → List ℕ → List ChunkPayloadData → ReadResult
copied buf_len ppi q written cs = record {
  queue = uncounted q (chunk_bytes cs);
  written = take buf_len (written ++ payload cs);
  outcome =
      if leb (length written + chunk_bytes cs) buf_len
      then ok (length written + chunk_bytes cs, ppi)
      else err err_short_buffer;
}

-- One round on a fragment that fits, and on one that does not.
copy_fits :
    (c : ChunkPayloadData) (cs : List ChunkPayloadData) (buf_len : ℕ)
    (ppi : PayloadProtocolIdentifier) (q : ReassemblyQueue) (written : List ℕ)
    → length written + length c.user_data ≤ buf_len
    → copy_loop buf_len ppi q written false (c ∷ cs)
      ≡ copy_loop buf_len ppi (uncounted q (length c.user_data)) (written ++ c.user_data) false cs
unfolding copy_loop
copy_fits c cs buf_len ppi q written h =
    let n : min (length c.user_data) (buf_len - length written) ≡ length c.user_data =
      omega arith in
    let whole = take-all (length c.user_data) c.user_data (omega arith) in
    let no : ltb (length c.user_data) (length c.user_data) ≡ false = ground arith in
    rw (n, whole, no, subtract_num_bytes_lem q (length c.user_data)) refl

copy_over :
    (c : ChunkPayloadData) (cs : List ChunkPayloadData) (buf_len : ℕ)
    (ppi : PayloadProtocolIdentifier) (q : ReassemblyQueue) (written : List ℕ)
    → length written ≤ buf_len
    → buf_len < length written + length c.user_data
    → copy_loop buf_len ppi q written false (c ∷ cs)
      ≡ copy_loop buf_len ppi
          (uncounted q (length c.user_data))
          (written ++ take (buf_len - length written) c.user_data)
          true
          cs
unfolding copy_loop
copy_over c cs buf_len ppi q written h k =
    let n : min (length c.user_data) (buf_len - length written) ≡ buf_len - length written =
      omega arith in
    let less : ltb (buf_len - length written) (length c.user_data) ≡ true = ground arith in
    rw (n, less, subtract_num_bytes_lem q (length c.user_data)) refl

cut_short :
    (written c rest : List ℕ) (buf_len : ℕ)
    → length written ≤ buf_len
    → buf_len < length written + length c
    → take buf_len (written ++ (c ++ rest)) ≡ written ++ take (buf_len - length written) c
cut_short written c rest buf_len h k =
    take-append_le buf_len written (c ++ rest) h
    ∙ ap (◌++◌ written) (take-append_ge (buf_len - length written) c rest (omega arith))

pub copy_loop_lem :
    (cs : List ChunkPayloadData) (buf_len : ℕ) (ppi : PayloadProtocolIdentifier)
    (q : ReassemblyQueue) (written : List ℕ)
    → length written ≤ buf_len
    → copy_loop buf_len ppi q written false cs ≡ copied buf_len ppi q written cs
copy_loop_lem [] buf_len ppi q written h =
    unfold copy_loop in ground (arith, append-nil written, take-all buf_len written h)
copy_loop_lem (c ∷ cs) buf_len ppi q written h =
    elim (Bool-cases (leb (length written + length c.user_data) buf_len)) [
      | inl fits ↦
          copy_fits c cs buf_len ppi q written (ground arith)
          ∙ copy_loop_lem cs buf_len ppi (uncounted q (length c.user_data)) (written ++ c.user_data)
              (omega (arith, length-append written c.user_data, leb→le _ _ fits))
          ∙ ground (
            arith,
            length-append written c.user_data,
            append_assoc written c.user_data (payload cs),
            uncounted_twice q (length c.user_data) (chunk_bytes cs),
          )
      | inr over ↦
          copy_over c cs buf_len ppi q written h (ground arith)
          ∙ copy_loop_short cs buf_len ppi (uncounted q (length c.user_data)) _
          ∙ ground (
            arith,
            cut_short written c.user_data (payload cs) buf_len h (ground arith),
            uncounted_twice q (length c.user_data) (chunk_bytes cs),
          )
    ]
