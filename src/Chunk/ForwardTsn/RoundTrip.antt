-- ===== src/Chunk/ForwardTsn/RoundTrip.antt =====
-- src/chunk/chunk_forward_tsn.rs: a FORWARD-TSN chunk that is alone in its buffer is read back.
use mathlib.Core.List.{append-nil, append_assoc}
use sctp.Base.{
  ℕ, zero, suc, ◌+◌, ◌*◌, ◌-◌, ◌^◌, ◌≤◌, ◌<◌, ◌≡◌, refl, sym, ap, ◌∙◌, List, [], ◌∷◌, ◌++◌, length,
  arith, All, IsU16, le→leb, some, take, length-append, sub64, take-all, drop-append_length,
}
use sctp.Error.{ok}
use sctp.Bytes.{Buf, slice, IsLawful}
use sctp.Bytes.Reads.{slice-value, length-put-append}
use sctp.Chunk.Header
use sctp.Chunk.Header.{ChunkHeader}
use sctp.Chunk.Header.Reads.{length-marshal_to}
use sctp.Chunk.Header.Reads as HeaderReads
use sctp.Chunk.ForwardTsn.Parse.{IsWire}
use sctp.Chunk.ForwardTsn.{
  ChunkForwardTsn, ChunkForwardTsnStream, unmarshal_stream, stream_loop, unmarshal, header,
  value_length, write_streams, value, marshal_to,
}

length-write_streams :
    (buf : Buf)
    → IsLawful buf
    → (streams : List ChunkForwardTsnStream)
    → length (write_streams buf streams) ≡ 4 * length streams
unfolding write_streams
length-write_streams buf law [] = refl
length-write_streams buf law (s ∷ streams) = omega (
  arith,
  length-put-append law.u16 s.identifier (buf.put_u16 s.sequence ++ write_streams buf streams),
  length-put-append law.u16 s.sequence (write_streams buf streams),
  length-write_streams buf law streams,
)

-- The slice from the front of the streams left to the end of the buffer.
slice_tail :
    (front back : List ℕ) (offset finish : ℕ)
    → offset ≡ length front
    → finish ≡ length (front ++ back)
    → slice offset finish (front ++ back) ≡ ok back
unfolding slice
slice_tail front back offset finish h g =
    rw
      (
        le→leb offset finish (omega (arith, length-append front back)),
        le→leb finish (length (front ++ back)) (omega arith),
      )
      (ap ok (
        ap (take _) (drop-append_length offset front back (sym h))
        ∙ take-all _ back (omega (arith, length-append front back))))

unmarshal_stream-put :
    (buf : Buf)
    → IsLawful buf
    → (s : ChunkForwardTsnStream) (rest : List ℕ) → IsU16 s.identifier
    → IsU16 s.sequence
    → unmarshal_stream buf (buf.put_u16 s.identifier ++ (buf.put_u16 s.sequence ++ rest)) ≡ ok s
unfolding unmarshal_stream
unmarshal_stream-put buf law s rest i q =
    rw
      (
        le→leb 4 (length (buf.put_u16 s.identifier ++ (buf.put_u16 s.sequence ++ rest))) (
            omega (
              arith,
              length-put-append law.u16 s.identifier (buf.put_u16 s.sequence ++ rest),
              length-put-append law.u16 s.sequence rest,
            )),
        law.u16.get-put s.identifier (buf.put_u16 s.sequence ++ rest) i,
        law.u16.get-put s.sequence rest q,
      )
      refl

regroup : (front a b rest : List ℕ) → (front ++ (a ++ (b ++ rest))) ≡ ((front ++ (a ++ b)) ++ rest)
regroup front a b rest =
    sym (append_assoc front (a ++ b) rest ∙ ap (λ r. front ++ r) (append_assoc a b rest))

stream_loop-write_streams :
    (buf : Buf)
    → IsLawful buf
    → (streams : List ChunkForwardTsnStream) (front : List ℕ) (fuel offset finish : ℕ)
    → All (λ s. IsU16 s.identifier × IsU16 s.sequence) streams
    → 4 * length streams < fuel
    → 4 * length streams < 2 ^ 64
    → offset ≡ length front
    → finish ≡ length (front ++ write_streams buf streams)
    → stream_loop buf fuel (4 * length streams) offset finish (front ++ write_streams buf streams)
      ≡ ok streams
unfolding stream_loop write_streams
stream_loop-write_streams buf law streams front zero offset finish a h w o f = absurd (omega arith)
stream_loop-write_streams buf law [] front (suc fuel) offset finish a h w o f = refl
stream_loop-write_streams buf law (s ∷ streams) front (suc fuel) offset finish a h w o f =
    ap (λ k. stream_loop buf (suc fuel) k offset finish (front ++ raw))
      {y = suc (4 * length streams + 3)} (omega arith)
    ∙ rw (slice_tail front raw offset finish o f) (
        rw (unmarshal_stream-put buf law s (write_streams buf streams) a.0.0 a.0.1) (
          rw
            (ap (λ k. stream_loop buf fuel k (offset + 4) finish (front ++ raw))
                {x = sub64 (suc (4 * length streams + 3)) 4} {y = 4 * length streams} (omega arith)
              ∙ ap (stream_loop buf fuel (4 * length streams) (offset + 4) finish) (
                  regroup front (buf.put_u16 s.identifier) (buf.put_u16 s.sequence)
                    (write_streams buf streams))
              ∙ stream_loop-write_streams buf law streams
                  (front ++ (buf.put_u16 s.identifier ++ buf.put_u16 s.sequence)) fuel (offset + 4)
                  finish a.1 (omega arith) (omega arith)
                  (omega (
                    arith,
                    o,
                    length-append front (buf.put_u16 s.identifier ++ buf.put_u16 s.sequence),
                    length-put-append law.u16 s.identifier (buf.put_u16 s.sequence),
                    law.u16.length-put s.sequence,
                  ))
                  (f
                    ∙ ap length (
                        regroup front (buf.put_u16 s.identifier) (buf.put_u16 s.sequence)
                          (write_streams buf streams))))
            refl))
  where
    raw : List ℕ
    raw = buf.put_u16 s.identifier ++ (buf.put_u16 s.sequence ++ write_streams buf streams)

length-value :
    (buf : Buf)
    → IsLawful buf
    → (c : ChunkForwardTsn) → length (value buf c) ≡ 4 + 4 * length c.streams
unfolding value
length-value buf law c = omega (
  arith,
  length-put-append law.u32 c.new_cumulative_tsn (write_streams buf c.streams),
  length-write_streams buf law c.streams,
)

value_length_exact :
    (c : ChunkForwardTsn) → IsWire c → (header c).value_length ≡ 4 + 4 * length c.streams
unfolding header value_length
value_length_exact c wire = let h = wire.length_field in omega arith

header_typ : (c : ChunkForwardTsn) → ((header c).typ ≡ 192) × ((header c).flags ≡ 0)
unfolding header
header_typ c = (refl, refl)

unmarshal_steps :
    (buf : Buf) (raw reader r1 : List ℕ) (h : ChunkHeader) (cum : ℕ)
    (streams : List ChunkForwardTsnStream)
    → Header.unmarshal buf raw ≡ ok h
    → h.typ ≡ 192
    → 8 ≤ length raw
    → slice 4 (4 + h.value_length) raw ≡ ok reader
    → buf.get_u32 reader ≡ some (cum, r1)
    → stream_loop buf (length raw - 8 + 1) (length raw - 8) 8 (4 + h.value_length) raw ≡ ok streams
    → unmarshal buf raw ≡ ok (record { new_cumulative_tsn = cum; streams = streams })
unfolding unmarshal
unmarshal_steps buf raw reader r1 h cum streams e t l s g d =
    rw e (rw t (rw (le→leb 8 (length raw) l) (rw s (rw g (rw d refl)))))

-- A marshalled FORWARD-TSN chunk that is alone in its buffer is parsed back.
pub unmarshal-marshal_to :
    (buf : Buf)
    → IsLawful buf
    → (c : ChunkForwardTsn) → IsWire c
    → unmarshal buf (marshal_to buf c) ≡ ok c
unfolding marshal_to value
unmarshal-marshal_to buf law c wire =
    unmarshal_steps buf (head ++ value buf c) (value buf c) (write_streams buf c.streams) (header c)
      c.new_cumulative_tsn c.streams
      (ap (λ r. Header.unmarshal buf (head ++ r)) (sym (append-nil (value buf c)))
        ∙ HeaderReads.unmarshal-marshal_to buf law (header c) (value buf c) [] (omega (arith, ht.0))
            (omega (arith, ht.1)) (omega (arith, exact, wire.length_field)) len (λ h. tt))
      ht.0 (omega (arith, total))
      (ap (λ r. slice 4 (4 + (header c).value_length) (head ++ r)) (sym (append-nil (value buf c)))
        ∙ slice-value head (value buf c) [] 0 _ len (omega arith) hl)
      (law.u32.get-put _ _ wire.cumulative)
      (ap (λ k. stream_loop buf (k + 1) k 8 (4 + (header c).value_length) (head ++ value buf c))
          {y = 4 * length c.streams} (omega (arith, total))
        ∙ ap
            (stream_loop buf (4 * length c.streams + 1) (4 * length c.streams) 8
              (4 + (header c).value_length))
            (sym
              (append_assoc head (buf.put_u32 c.new_cumulative_tsn) (write_streams buf c.streams)))
        ∙ stream_loop-write_streams buf law c.streams (head ++ buf.put_u32 c.new_cumulative_tsn)
            (4 * length c.streams + 1) 8 (4 + (header c).value_length) wire.entries (omega arith)
            (omega (arith, wire.length_field))
            (omega (
              arith,
              length-append head (buf.put_u32 c.new_cumulative_tsn),
              hl,
              law.u32.length-put c.new_cumulative_tsn,
            ))
            (omega (
              arith,
              ap length (
                  append_assoc head (buf.put_u32 c.new_cumulative_tsn)
                    (write_streams buf c.streams)),
              total,
              exact,
            )))
  where
    head : List ℕ
    head = Header.marshal_to buf (header c)

    hl : length head ≡ 4
    hl = length-marshal_to buf law (header c)

    ht : ((header c).typ ≡ 192) × ((header c).flags ≡ 0)
    ht = header_typ c

    exact : (header c).value_length ≡ 4 + 4 * length c.streams
    exact = value_length_exact c wire

    len : length (value buf c) ≡ (header c).value_length
    len = length-value buf law c ∙ sym exact

    total : length (head ++ value buf c) ≡ 8 + 4 * length c.streams
    total = omega (arith, length-append head (value buf c), hl, length-value buf law c)
