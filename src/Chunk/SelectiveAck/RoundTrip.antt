-- ===== src/Chunk/SelectiveAck/RoundTrip.antt =====
-- src/chunk/chunk_selective_ack.rs: the parser reads no byte past the chunk, and reads back a SACK.
use mathlib.Core.List.{append_assoc}
use sctp.Base.{
  ℕ, zero, suc, ◌+◌, ◌*◌, ◌-◌, ◌%◌, ◌^◌, ◌≤◌, ◌<◌, ◌≡◌, refl, ap, ◌∙◌, List, [], ◌∷◌, ◌++◌, length,
  leb, ◌==◌, arith, All, IsU16, IsU32, true, le→leb, some, length-append,
}
use sctp.Error.{ok}
use sctp.Error.Outcomes.{Safe, guard-Safe, >>=-Safe}
use sctp.Bytes.{Buf, slice, IsLawful}
use sctp.Bytes.Reads.{read-Safe, slice-Safe, slice-value, length-put-append, get-put_cast16}
use sctp.Chunk.Header
use sctp.Chunk.Header.{index, ChunkHeader}
use sctp.Chunk.Header.Reads.{Fits, IsPadded, unmarshal-Safe, index-marshal_to}
use sctp.Chunk.Header.Reads as HeaderReads
use sctp.Queue.Payload.{GapAckBlock}
use sctp.Chunk.SelectiveAck.{
  ChunkSelectiveAck, read_blocks, read_tsns, unmarshal, header, value_length, write_blocks,
  write_tsns, value, marshal_to,
}

-- The fields are words of their widths, and the length field holds the chunk's length.
pub record IsWire (c : ChunkSelectiveAck) : Type 0 where
  pub cumulative : IsU32 c.cumulative_tsn_ack
  pub window : IsU32 c.advertised_receiver_window_credit
  pub blocks : All (λ g. IsU16 g.start × IsU16 g.finish) c.gap_ack_blocks
  pub duplicates : All (λ t. IsU32 t) c.duplicate_tsn
  pub length_field : 16 + (length c.gap_ack_blocks * 4 + length c.duplicate_tsn * 4) < 2 ^ 16

-- What the two loops leave: the announced number of entries, and m bytes.
abbrev BlocksRead : ℕ → ℕ → List GapAckBlock × List ℕ → Type 0
BlocksRead n m r = (m ≤ length r.1) × (length r.0 ≡ n)

abbrev TsnsRead : ℕ → List ℕ × List ℕ → Type 0
TsnsRead n r = length r.0 ≡ n

read_blocks-Safe :
    (buf : Buf)
    → IsLawful buf
    → (n m : ℕ) (raw : List ℕ) → 4 * n + m ≤ length raw
    → Safe (BlocksRead n m) (read_blocks buf n raw)
unfolding read_blocks
read_blocks-Safe buf law zero m raw h = (omega arith, refl)
read_blocks-Safe buf law (suc n) m raw h =
    read-Safe Q 2 (2 ^ 16) _ _ law.u16 (2 + (4 * n + m)) raw _ (omega arith) (λ first r1 l1.
      read-Safe Q 2 (2 ^ 16) _ _ law.u16 (4 * n + m) r1 _ l1 (λ last r2 l2.
        >>=-Safe Q (BlocksRead n m) (read_blocks buf n r2) _ (read_blocks-Safe buf law n m r2 l2)
          (λ r e q. (q.0, ap suc q.1))))
  where
    Q : List GapAckBlock × List ℕ → Type 0
    Q r = BlocksRead (suc n) m r

read_tsns-Safe :
    (buf : Buf)
    → IsLawful buf
    → (n : ℕ) (raw : List ℕ) → 4 * n ≤ length raw
    → Safe (TsnsRead n) (read_tsns buf n raw)
unfolding read_tsns
read_tsns-Safe buf law zero raw h = refl
read_tsns-Safe buf law (suc n) raw h =
    read-Safe Q 4 (2 ^ 32) _ _ law.u32 (4 * n) raw _ (omega arith) (λ tsn r1 l1.
      >>=-Safe Q (TsnsRead n) (read_tsns buf n r1) _ (read_tsns-Safe buf law n r1 l1)
        (λ r e q. ap suc q))
  where
    Q : List ℕ × List ℕ → Type 0
    Q r = TsnsRead (suc n) r

-- A SACK parser given any bytes returns a value or an error, and the lists that it returns are no
-- longer than the buffer has room for.
pub unmarshal_never_panics :
    (buf : Buf)
    → IsLawful buf
    → (raw : List ℕ)
    → Safe
        (λ c. 16 + (4 * length c.gap_ack_blocks + 4 * length c.duplicate_tsn) ≤ length raw)
        (unmarshal buf raw)
unfolding unmarshal
unmarshal_never_panics buf law raw =
    >>=-Safe Q (Fits raw) _ _ (unmarshal-Safe buf law raw) (λ h e fits.
      guard-Safe Q _ _ _ (λ (t : (h.typ == 3) ≡ true).
        guard-Safe Q _ _ _ (λ (l : leb 12 h.value_length ≡ true).
          slice-Safe Q 4 (4 + h.value_length) raw _ (omega arith) fits (λ reader len.
            read-Safe Q 4 (2 ^ 32) _ _ law.u32 (h.value_length - 4) reader _ (ground arith)
              (λ cum r1 l1.
                read-Safe Q 4 (2 ^ 32) _ _ law.u32 (h.value_length - 8) r1 _ (ground arith)
                  (λ win r2 l2.
                    read-Safe Q 2 (2 ^ 16) _ _ law.u16 (h.value_length - 10) r2 _ (ground arith)
                      (λ nb r3 l3.
                        read-Safe Q 2 (2 ^ 16) _ _ law.u16 (h.value_length - 12) r3 _ (ground arith)
                          (λ nd r4 l4.
                            guard-Safe Q _ _ _
                              (λ (g : leb (12 + (4 * nb + 4 * nd)) h.value_length ≡ true).
                                >>=-Safe Q (BlocksRead nb (4 * nd)) (read_blocks buf nb r4) _
                                  (read_blocks-Safe buf law nb (4 * nd) r4 (ground arith))
                                  (λ bs e1 q1.
                                    >>=-Safe Q (TsnsRead nd) (read_tsns buf nd bs.1) _
                                      (read_tsns-Safe buf law nd bs.1 q1.0)
                                      (λ ds e2 q2. ground arith)))))))))))
  where
    Q : ChunkSelectiveAck → Type 0
    Q c = 16 + (4 * length c.gap_ack_blocks + 4 * length c.duplicate_tsn) ≤ length raw

read_blocks-write_blocks :
    (buf : Buf)
    → IsLawful buf
    → (blocks : List GapAckBlock) (rest : List ℕ) → All (λ g. IsU16 g.start × IsU16 g.finish) blocks
    → read_blocks buf (length blocks) (write_blocks buf blocks ++ rest) ≡ ok (blocks, rest)
unfolding read_blocks write_blocks
read_blocks-write_blocks buf law [] rest h = refl
read_blocks-write_blocks buf law (g ∷ blocks) rest h =
    rw
      (
        append_assoc (buf.put_u16 g.start) (buf.put_u16 g.finish ++ write_blocks buf blocks) rest,
        append_assoc (buf.put_u16 g.finish) (write_blocks buf blocks) rest,
        law.u16.get-put g.start (buf.put_u16 g.finish ++ (write_blocks buf blocks ++ rest)) h.0.0,
        law.u16.get-put g.finish (write_blocks buf blocks ++ rest) h.0.1,
        read_blocks-write_blocks buf law blocks rest h.1,
      )
      refl

read_tsns-write_tsns :
    (buf : Buf)
    → IsLawful buf
    → (tsns : List ℕ) → All (λ t. IsU32 t) tsns
    → read_tsns buf (length tsns) (write_tsns buf tsns) ≡ ok (tsns, [])
unfolding read_tsns write_tsns
read_tsns-write_tsns buf law [] h = refl
read_tsns-write_tsns buf law (t ∷ tsns) h =
    rw (law.u32.get-put t (write_tsns buf tsns) h.0, read_tsns-write_tsns buf law tsns h.1) refl

length-write_blocks :
    (buf : Buf)
    → IsLawful buf
    → (blocks : List GapAckBlock) → length (write_blocks buf blocks) ≡ length blocks * 4
unfolding write_blocks
length-write_blocks buf law [] = refl
length-write_blocks buf law (g ∷ blocks) = omega (
  arith,
  length-put-append law.u16 g.start (buf.put_u16 g.finish ++ write_blocks buf blocks),
  length-put-append law.u16 g.finish (write_blocks buf blocks),
  length-write_blocks buf law blocks,
)

length-write_tsns :
    (buf : Buf) → IsLawful buf → (tsns : List ℕ) → length (write_tsns buf tsns) ≡ length tsns * 4
unfolding write_tsns
length-write_tsns buf law [] = refl
length-write_tsns buf law (t ∷ tsns) =
    omega (arith, length-put-append law.u32 t (write_tsns buf tsns), length-write_tsns buf law tsns)

length-value :
    (buf : Buf) → IsLawful buf → (c : ChunkSelectiveAck) → length (value buf c) ≡ value_length c
unfolding value value_length
length-value buf law c =
    let r0 = write_blocks buf c.gap_ack_blocks ++ write_tsns buf c.duplicate_tsn in
    let r1 = buf.put_u16 (length c.duplicate_tsn % 2 ^ 16) ++ r0 in
    let r2 = buf.put_u16 (length c.gap_ack_blocks % 2 ^ 16) ++ r1 in
    let r3 = buf.put_u32 c.advertised_receiver_window_credit ++ r2 in
    omega (
      arith,
      length-put-append law.u32 c.cumulative_tsn_ack r3,
      length-put-append law.u32 c.advertised_receiver_window_credit r2,
      length-put-append law.u16 (length c.gap_ack_blocks % 2 ^ 16) r1,
      length-put-append law.u16 (length c.duplicate_tsn % 2 ^ 16) r0,
      length-append (write_blocks buf c.gap_ack_blocks) (write_tsns buf c.duplicate_tsn),
      length-write_blocks buf law c.gap_ack_blocks,
      length-write_tsns buf law c.duplicate_tsn,
    )

value_length_exact :
    (c : ChunkSelectiveAck)
    → IsWire c
    → (header c).value_length ≡ 12 + (length c.gap_ack_blocks * 4 + length c.duplicate_tsn * 4)
unfolding header value_length
value_length_exact c wire = let h = wire.length_field in omega arith

header_typ : (c : ChunkSelectiveAck) → ((header c).typ ≡ 3) × ((header c).flags ≡ 0)
unfolding header
header_typ c = (refl, refl)

unmarshal_steps :
    (buf : Buf) (raw reader r1 r2 r3 r4 r5 r6 : List ℕ) (h : ChunkHeader) (cum win nb nd : ℕ)
    (blocks : List GapAckBlock) (tsns : List ℕ)
    → Header.unmarshal buf raw ≡ ok h
    → h.typ ≡ 3
    → 12 + (4 * nb + 4 * nd) ≤ h.value_length
    → slice 4 (4 + h.value_length) raw ≡ ok reader
    → buf.get_u32 reader ≡ some (cum, r1)
    → buf.get_u32 r1 ≡ some (win, r2)
    → buf.get_u16 r2 ≡ some (nb, r3)
    → buf.get_u16 r3 ≡ some (nd, r4)
    → read_blocks buf nb r4 ≡ ok (blocks, r5)
    → read_tsns buf nd r5 ≡ ok (tsns, r6)
    → unmarshal buf raw
      ≡ ok (record {
        cumulative_tsn_ack = cum;
        advertised_receiver_window_credit = win;
        gap_ack_blocks = blocks;
        duplicate_tsn = tsns;
      })
unfolding unmarshal
unmarshal_steps buf raw reader r1 r2 r3 r4 r5 r6 h cum win nb nd blocks tsns e t l s g1 g2 g3 g4 b
      d =
    rw e (
      rw t (
        rw (le→leb 12 h.value_length (omega arith)) (
          rw s (
            rw g1 (
              rw g2 (
                rw g3 (
                  rw g4 (
                    rw (le→leb (12 + (4 * nb + 4 * nd)) h.value_length l) (rw b (rw d refl))))))))))

expand :
    (c : ChunkSelectiveAck)
    → value_length c ≡ 12 + (length c.gap_ack_blocks * 4 + length c.duplicate_tsn * 4)
unfolding value_length
expand c = omega arith

-- A marshalled SACK is parsed back, whatever follows it in the buffer.
pub unmarshal-marshal_to :
    (buf : Buf)
    → IsLawful buf
    → (c : ChunkSelectiveAck) (rest : List ℕ) → IsWire c
    → IsPadded rest
    → unmarshal buf (marshal_to buf c ++ rest) ≡ ok c
unfolding marshal_to value
unmarshal-marshal_to buf law c rest wire pad =
    ap (unmarshal buf) (append_assoc head (value buf c) rest)
    ∙ unmarshal_steps buf (head ++ (value buf c ++ rest)) (value buf c) _ _ _ _
        (write_tsns buf c.duplicate_tsn) _ (header c) c.cumulative_tsn_ack
        c.advertised_receiver_window_credit (length c.gap_ack_blocks) (length c.duplicate_tsn)
        c.gap_ack_blocks c.duplicate_tsn
        (HeaderReads.unmarshal-marshal_to buf law (header c) (value buf c) rest
          (omega (arith, ht.0)) (omega (arith, ht.1)) (omega (arith, exact, wire.length_field)) len
          pad)
        ht.0 (omega (arith, exact))
        (slice-value head (value buf c) rest 0 _ len (omega arith)
          (HeaderReads.length-marshal_to buf law (header c)))
        (law.u32.get-put _ _ wire.cumulative) (law.u32.get-put _ _ wire.window)
        (get-put_cast16 law.u16 (length c.gap_ack_blocks) _ (omega (arith, wire.length_field)))
        (get-put_cast16 law.u16 (length c.duplicate_tsn) _ (omega (arith, wire.length_field)))
        (read_blocks-write_blocks buf law c.gap_ack_blocks (write_tsns buf c.duplicate_tsn)
          wire.blocks)
        (read_tsns-write_tsns buf law c.duplicate_tsn wire.duplicates)
  where
    head : List ℕ
    head = Header.marshal_to buf (header c)

    ht : ((header c).typ ≡ 3) × ((header c).flags ≡ 0)
    ht = header_typ c

    exact :
        (header c).value_length ≡ 12 + (length c.gap_ack_blocks * 4 + length c.duplicate_tsn * 4)
    exact = value_length_exact c wire

    len : length (value buf c) ≡ (header c).value_length
    len = omega (arith, length-value buf law c, exact, expand c)

pub length-marshal_to :
    (buf : Buf)
    → IsLawful buf
    → (c : ChunkSelectiveAck) → length (marshal_to buf c) ≡ 4 + value_length c
unfolding marshal_to
length-marshal_to buf law c = omega (
  arith,
  length-append (Header.marshal_to buf (header c)) (value buf c),
  HeaderReads.length-marshal_to buf law (header c),
  length-value buf law c,
)

pub index-marshal :
    (buf : Buf)
    → IsLawful buf
    → (c : ChunkSelectiveAck) (rest : List ℕ) → index 0 (marshal_to buf c ++ rest) ≡ ok 3
unfolding marshal_to header
index-marshal buf law c rest =
    ap (index 0) (append_assoc (Header.marshal_to buf (header c)) (value buf c) rest)
    ∙ index-marshal_to buf law (header c) (value buf c ++ rest) (omega arith)
