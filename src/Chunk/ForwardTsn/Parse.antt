-- ===== src/Chunk/ForwardTsn/Parse.antt =====
-- src/chunk/chunk_forward_tsn.rs: when the parser aborts, that its loop ends, and that it takes a
-- chunk for whole only at the end of its buffer.
use sctp.Base.{
  ℕ, zero, suc, ◌+◌, ◌*◌, ◌-◌, ◌^◌, ◌≤◌, ◌<◌, ◌≡◌, refl, List, length, leb, arith, All, IsU16,
  IsU32, true, le→leb, none, subst, drop, take, length-take, length-drop, sub64,
}
use sctp.Error.{ok, panicked}
use sctp.Error.Outcomes.{Safe, guard-Safe, >>=-Safe}
use sctp.Bytes.{Buf, slice, IsLawful}
use sctp.Bytes.Reads.{read-Safe, slice-Safe}
use sctp.Chunk.Header
use sctp.Chunk.Header.{ChunkHeader}
use sctp.Chunk.Header.Reads.{Fits, unmarshal-Safe}
use sctp.Chunk.ForwardTsn.{
  ChunkForwardTsn, ChunkForwardTsnStream, unmarshal_stream, stream_loop, unmarshal,
}

unmarshal_stream-Safe :
    (buf : Buf)
    → IsLawful buf
    → (raw : List ℕ) → Safe (λ s. 4 ≤ length raw) (unmarshal_stream buf raw)
unfolding unmarshal_stream
unmarshal_stream-Safe buf law raw = guard-Safe Q _ _ _ (λ (h : leb 4 (length raw) ≡ true).
    read-Safe Q 2 (2 ^ 16) _ _ law.u16 2 raw _ (ground arith)
      (λ id r1 l1. read-Safe Q 2 (2 ^ 16) _ _ law.u16 0 r1 _ l1 (λ sq r2 l2. ground arith)))
  where
    Q : ChunkForwardTsnStream → Type 0
    Q s = 4 ≤ length raw

-- The loop ends with the streams that fill the rest of the buffer, or with an error.
abbrev Fills : ℕ → List ChunkForwardTsnStream → Type 0
Fills remaining streams = 4 * length streams ≡ remaining

stream_loop-Safe :
    (buf : Buf)
    → IsLawful buf
    → (fuel remaining offset finish : ℕ) (raw : List ℕ) → remaining < fuel
    → remaining < 2 ^ 64
    → offset + remaining ≡ length raw
    → offset ≤ finish
    → finish ≤ length raw
    → Safe
        (λ streams. (Fills remaining streams) × (offset + remaining ≤ finish))
        (stream_loop buf fuel remaining offset finish raw)
unfolding stream_loop
stream_loop-Safe buf law zero remaining offset finish raw h w i o f = absurd (omega arith)
stream_loop-Safe buf law (suc fuel) zero offset finish raw h w i o f = (refl, omega arith)
stream_loop-Safe buf law (suc fuel) (suc remaining) offset finish raw h w i o f =
    slice-Safe Q offset finish raw _ o f (λ part len.
      >>=-Safe Q (λ (s : ChunkForwardTsnStream). 4 ≤ length part) (unmarshal_stream buf part) _
        (unmarshal_stream-Safe buf law part)
        (λ s e q.
          >>=-Safe Q
            (λ (streams : List ChunkForwardTsnStream).
              (Fills (sub64 (suc remaining) 4) streams)
              × (offset + 4 + sub64 (suc remaining) 4 ≤ finish))
            (stream_loop buf fuel (sub64 (suc remaining) 4) (offset + 4) finish raw) _
            (stream_loop-Safe buf law fuel (sub64 (suc remaining) 4) (offset + 4) finish raw
              (omega arith) (omega arith) (omega arith) (omega arith) f)
            (λ streams e2 q2. (omega (arith, q2.0), omega (arith, q2.1)))))
  where
    Q : List ChunkForwardTsnStream → Type 0
    Q streams = (Fills (suc remaining) streams) × (offset + suc remaining ≤ finish)

-- A parse whose chunk ends exactly where the buffer does.
abbrev pub IsExact : List ℕ → ChunkHeader → ChunkForwardTsn → Type 0
IsExact raw h c = (8 + 4 * length c.streams ≡ length raw) × (4 + h.value_length ≡ length raw)

short_slice :
    (buf : Buf)
    → IsLawful buf
    → (v : ℕ) (raw : List ℕ) → v < 4
    → 4 + v ≤ length raw
    → (part : List ℕ) × (slice 4 (4 + v) raw ≡ ok part) × (buf.get_u32 part ≡ none)
unfolding slice
short_slice buf law v raw h l = (
  take (4 + v - 4) (drop 4 raw),
  rw (le→leb 4 (4 + v) (omega arith), le→leb (4 + v) (length raw) l) refl,
  law.u32.get_short _ (omega (arith, length-take (4 + v - 4) (drop 4 raw), length-drop 4 raw)),
)

-- Once the header of a FORWARD-TSN chunk is read from a buffer of eight bytes or more, the parser
-- aborts when the chunk's value has fewer than four bytes. Otherwise it does not abort, its loop
-- ends, and it returns a chunk only when that chunk ends exactly where the buffer does.
pub unmarshal-Exact :
    (buf : Buf)
    → IsLawful buf
    → (raw : List ℕ) (h : ChunkHeader) → length raw < 2 ^ 64
    → 8 ≤ length raw
    → Header.unmarshal buf raw ≡ ok h
    → h.typ ≡ 192
    → (h.value_length < 4 → unmarshal buf raw ≡ panicked)
      × (4 ≤ h.value_length → Safe (IsExact raw h) (unmarshal buf raw))
unfolding unmarshal
unmarshal-Exact buf law raw h w long e t = (
  (λ short.
      let (part, s, g) = short_slice buf law h.value_length raw short fits in
      rw e (rw t (rw (le→leb 8 (length raw) long) (rw s (rw g refl))))),
  (λ enough. rw e (
      rw t (
        rw (le→leb 8 (length raw) long) (
          slice-Safe Q 4 (4 + h.value_length) raw _ (omega arith) fits (λ reader len.
            read-Safe Q 4 (2 ^ 32) _ _ law.u32 0 reader _ (omega arith) (λ cum r1 l1.
              >>=-Safe Q
                (λ (streams : List ChunkForwardTsnStream).
                  (Fills (length raw - 8) streams) × (8 + (length raw - 8) ≤ 4 + h.value_length))
                (stream_loop buf (length raw - 8 + 1) (length raw - 8) 8 (4 + h.value_length) raw) _
                (stream_loop-Safe buf law (length raw - 8 + 1) (length raw - 8) 8
                  (4 + h.value_length) raw (omega arith) (omega arith) (omega arith) (omega arith)
                  fits)
                (λ streams e2 q. (omega (arith, q.0), omega (arith, q.1, fits))))))))),
)
  where
    Q : ChunkForwardTsn → Type 0
    Q c = IsExact raw h c

    fits : 4 + h.value_length ≤ length raw
    fits = subst (Safe (Fits raw)) e (unmarshal-Safe buf law raw)

-- The fields are words of their widths, and the length field holds the chunk's length.
pub record IsWire (c : ChunkForwardTsn) : Type 0 where
  pub cumulative : IsU32 c.new_cumulative_tsn
  pub entries : All (λ s. IsU16 s.identifier × IsU16 s.sequence) c.streams
  pub length_field : 8 + 4 * length c.streams < 2 ^ 16
