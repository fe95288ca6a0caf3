-- ===== src/Chunk/PayloadData/Codec/RoundTrip.antt =====
-- src/chunk/chunk_payload_data.rs: what a DATA chunk keeps on its way over the wire.
use mathlib.Core.List.{append_assoc}
use sctp.Base.{
  ℕ, ◌+◌, ◌^◌, ◌≤◌, ◌<◌, ◌≡◌, refl, ap, ◌∙◌, List, ◌++◌, length, leb, ◌==◌, Bool, true, false,
  arith, IsU8, IsU16, IsU32, le→leb, some, drop, sym, length-append, drop-append_plus,
  drop-append_length,
}
use sctp.Error.{Result, ok}
use sctp.Error.Outcomes.{Safe, guard-Safe, >>=-Safe}
use sctp.Bytes.{Buf, slice, IsLawful}
use sctp.Bytes.Reads.{read-Safe, slice-Safe, slice-value, length-put-append}
use sctp.Chunk.Header
use sctp.Chunk.Header.Reads.{Fits, IsPadded, unmarshal-Safe, index-marshal_to}
use sctp.Chunk.Header.Reads as HeaderReads
use sctp.Chunk.Header.{index, ChunkHeader, ct_payload_data, chunk_header_size}
use sctp.Chunk.PayloadData.{ChunkPayloadData, PayloadProtocolIdentifier, to_u32, from_u32}
use sctp.Chunk.PayloadData.Codec.{unmarshal, marshal_to, header, value, value_length, has_bit}

-- The fields that the wire carries are words of their widths, and the length field holds the
-- chunk's length.
pub record IsWire (c : ChunkPayloadData) : Type 0 where
  pub tsn : IsU32 c.tsn
  pub stream_identifier : IsU16 c.stream_identifier
  pub stream_sequence_number : IsU16 c.stream_sequence_number
  pub length_field : 16 + length c.user_data < 2 ^ 16

-- The chunk that a peer parses: the sender's marks are reset.
unfoldable pub received : (now abandoned all_inflight : ℕ) → ChunkPayloadData → ChunkPayloadData
received now abandoned all_inflight c = record c {
  acked = false;
  miss_indicator = 0;
  since = now;
  nsent = 0;
  abandoned_cell = abandoned;
  all_inflight_cell = all_inflight;
  retransmit = false;
}

pub unmarshal_never_panics :
    (buf : Buf)
    → IsLawful buf
    → (now a b : ℕ) (raw : List ℕ)
    → Safe (λ c. 16 + length c.user_data ≤ length raw) (unmarshal buf now a b raw)
unfolding unmarshal
unmarshal_never_panics buf law now a b raw =
    >>=-Safe Q (Fits raw) _ _ (unmarshal-Safe buf law raw) (λ h e fits.
      guard-Safe Q _ _ _ (λ (t : (h.typ == 0) ≡ true).
        guard-Safe Q _ _ _ (λ (l : leb 12 h.value_length ≡ true).
          slice-Safe Q 4 (4 + h.value_length) raw _ (omega arith) fits (λ reader len.
            read-Safe Q 4 (2 ^ 32) _ _ law.u32 8 reader _ (ground arith) (λ tsn r1 l1.
              read-Safe Q 2 (2 ^ 16) _ _ law.u16 6 r1 _ l1 (λ si r2 l2.
                read-Safe Q 2 (2 ^ 16) _ _ law.u16 4 r2 _ l2 (λ ssn r3 l3.
                  read-Safe Q 4 (2 ^ 32) _ _ law.u32 0 r3 _ l3 (λ ppi r4 l4.
                    slice-Safe Q 16 (4 + h.value_length) raw _ (ground arith) fits
                      (λ user_data ul. ground arith)))))))))
  where
    Q : ChunkPayloadData → Type 0
    Q c = 16 + length c.user_data ≤ length raw

from_u32-to_u32 : (p : PayloadProtocolIdentifier) → from_u32 (to_u32 p) ≡ p
unfolding from_u32 to_u32
from_u32-to_u32 PayloadProtocolIdentifier.dcep = refl
from_u32-to_u32 PayloadProtocolIdentifier.string = refl
from_u32-to_u32 PayloadProtocolIdentifier.binary = refl
from_u32-to_u32 PayloadProtocolIdentifier.string_empty = refl
from_u32-to_u32 PayloadProtocolIdentifier.binary_empty = refl
from_u32-to_u32 PayloadProtocolIdentifier.unknown = refl

bits :
    (c : ChunkPayloadData)
    → (has_bit (header c).flags 8 ≡ c.immediate_sack)
      × (has_bit (header c).flags 4 ≡ c.unordered)
      × (has_bit (header c).flags 2 ≡ c.beginning_fragment)
      × (has_bit (header c).flags 1 ≡ c.ending_fragment)
      × ((header c).flags < 16)
unfolding header
bits c = ground arith

length-value :
    (buf : Buf) → IsLawful buf → (c : ChunkPayloadData) → length (value buf c) ≡ value_length c
unfolding value value_length
length-value buf law c =
    let r1 = buf.put_u32 (to_u32 c.payload_type) ++ c.user_data in
    let r2 = buf.put_u16 c.stream_sequence_number ++ r1 in
    let r3 = buf.put_u16 c.stream_identifier ++ r2 in
    omega (
      arith,
      length-put-append law.u32 c.tsn r3,
      length-put-append law.u16 c.stream_identifier r2,
      length-put-append law.u16 c.stream_sequence_number r1,
      length-put-append law.u32 (to_u32 c.payload_type) c.user_data,
    )

drop-value :
    (buf : Buf) → IsLawful buf → (c : ChunkPayloadData) → drop 12 (value buf c) ≡ c.user_data
unfolding value
drop-value buf law c =
    drop-append_plus 12 8 (buf.put_u32 c.tsn) _ (omega (arith, law.u32.length-put c.tsn))
    ∙ drop-append_plus 8 6 (buf.put_u16 c.stream_identifier) _
        (omega (arith, law.u16.length-put c.stream_identifier))
    ∙ drop-append_plus 6 4 (buf.put_u16 c.stream_sequence_number) _
        (omega (arith, law.u16.length-put c.stream_sequence_number))
    ∙ drop-append_length 4 (buf.put_u32 (to_u32 c.payload_type)) c.user_data
        (law.u32.length-put (to_u32 c.payload_type))

fields-of_received :
    (now a b : ℕ) (c : ChunkPayloadData) (i u bf e : Bool) (p : PayloadProtocolIdentifier)
    (d : List ℕ)
    → i ≡ c.immediate_sack
    → u ≡ c.unordered
    → bf ≡ c.beginning_fragment
    → e ≡ c.ending_fragment
    → p ≡ c.payload_type
    → d ≡ c.user_data
    → ◌≡◌ {A = Result ChunkPayloadData}
        (ok (record {
          unordered = u;
          beginning_fragment = bf;
          ending_fragment = e;
          immediate_sack = i;
          tsn = c.tsn;
          stream_identifier = c.stream_identifier;
          stream_sequence_number = c.stream_sequence_number;
          payload_type = p;
          user_data = d;
          acked = false;
          miss_indicator = 0;
          since = now;
          nsent = 0;
          abandoned_cell = a;
          all_inflight_cell = b;
          retransmit = false;
        }))
        (ok (received now a b c))
unfolding received
fields-of_received now a b c i u bf e p d h1 h2 h3 h4 h5 h6 = rw (h1, h2, h3, h4, h5, h6) refl

value_length_exact : (c : ChunkPayloadData) → IsWire c → (header c).value_length ≡ value_length c
unfolding header value_length
value_length_exact c wire = let h = wire.length_field in omega arith

to_u32-lt : (p : PayloadProtocolIdentifier) → to_u32 p < 2 ^ 32
unfolding to_u32
to_u32-lt p = ground arith

unmarshal_steps :
    (buf : Buf) (now a b : ℕ) (raw r1 r2 r3 r4 user_data : List ℕ) (h : ChunkHeader)
    (tsn si ssn ppi : ℕ) (reader : List ℕ)
    → Header.unmarshal buf raw ≡ ok h
    → h.typ ≡ 0
    → 12 ≤ h.value_length
    → slice 4 (4 + h.value_length) raw ≡ ok reader
    → buf.get_u32 reader ≡ some (tsn, r1)
    → buf.get_u16 r1 ≡ some (si, r2)
    → buf.get_u16 r2 ≡ some (ssn, r3)
    → buf.get_u32 r3 ≡ some (ppi, r4)
    → slice 16 (4 + h.value_length) raw ≡ ok user_data
    → unmarshal buf now a b raw
      ≡ ok (record {
        unordered = has_bit h.flags 4;
        beginning_fragment = has_bit h.flags 2;
        ending_fragment = has_bit h.flags 1;
        immediate_sack = has_bit h.flags 8;
        tsn = tsn;
        stream_identifier = si;
        stream_sequence_number = ssn;
        payload_type = from_u32 ppi;
        user_data = user_data;
        acked = false;
        miss_indicator = 0;
        since = now;
        nsent = 0;
        abandoned_cell = a;
        all_inflight_cell = b;
        retransmit = false;
      })
unfolding unmarshal
unmarshal_steps buf now a b raw r1 r2 r3 r4 user_data h tsn si ssn ppi reader e t l s g1 g2 g3 g4
      u =
    rw e (rw t (rw (le→leb 12 h.value_length l) (rw s (rw g1 (rw g2 (rw g3 (rw g4 (rw u refl))))))))

typ-IsU8 : (c : ChunkPayloadData) → IsU8 (header c).typ
unfolding header
typ-IsU8 c = omega arith

typ_zero : (c : ChunkPayloadData) → (header c).typ ≡ 0
unfolding header
typ_zero c = refl

lt_trans_IsU8 : (n : ℕ) → n < 16 → IsU8 n
lt_trans_IsU8 n h = omega arith

expand : (c : ChunkPayloadData) → value_length c ≡ 12 + length c.user_data
unfolding value_length
expand c = refl

-- A marshalled DATA chunk is parsed back, whatever follows it in the buffer.
pub unmarshal-marshal_to :
    (buf : Buf)
    → IsLawful buf
    → (now a b : ℕ) (c : ChunkPayloadData) (rest : List ℕ) → IsWire c
    → IsPadded rest
    → unmarshal buf now a b (marshal_to buf c ++ rest) ≡ ok (received now a b c)
unfolding marshal_to
unmarshal-marshal_to buf law now a b c rest wire pad =
    let (i, u, bf, e, lt) = bits c in
    ap (unmarshal buf now a b) (append_assoc head (value buf c) rest)
    ∙ unmarshal_steps buf now a b (head ++ (value buf c ++ rest)) _ _ _ _ _ (header c) c.tsn
        c.stream_identifier c.stream_sequence_number (to_u32 c.payload_type) (value buf c)
        (HeaderReads.unmarshal-marshal_to buf law (header c) (value buf c) rest (typ-IsU8 c)
          (lt_trans_IsU8 _ lt) (omega (arith, exact, wire.length_field, expand c)) len pad)
        (typ_zero c) (omega (arith, exact, expand c))
        (slice-value head (value buf c) rest 0 _ len (omega arith)
          (HeaderReads.length-marshal_to buf law (header c)))
        (law.u32.get-put _ _ wire.tsn) (law.u16.get-put _ _ wire.stream_identifier)
        (law.u16.get-put _ _ wire.stream_sequence_number)
        (law.u32.get-put _ _ (to_u32-lt c.payload_type))
        (slice-value head (value buf c) rest 12 _ len (omega (arith, exact, expand c))
          (HeaderReads.length-marshal_to buf law (header c)))
    ∙ fields-of_received now a b c _ _ _ _ _ _ i u bf e (from_u32-to_u32 c.payload_type)
        (drop-value buf law c)
  where
    head : List ℕ
    head = Header.marshal_to buf (header c)

    exact : (header c).value_length ≡ value_length c
    exact = value_length_exact c wire

    len : length (value buf c) ≡ (header c).value_length
    len = length-value buf law c ∙ sym exact

pub length-marshal_to :
    (buf : Buf)
    → IsLawful buf
    → (c : ChunkPayloadData) → length (marshal_to buf c) ≡ 4 + value_length c
unfolding marshal_to
length-marshal_to buf law c = omega (
  arith,
  length-append (Header.marshal_to buf (header c)) (value buf c),
  HeaderReads.length-marshal_to buf law (header c),
  length-value buf law c,
)

pub index-marshal :
    (buf : Buf)
    → IsLawful buf
    → (c : ChunkPayloadData) (rest : List ℕ) → index 0 (marshal_to buf c ++ rest) ≡ ok 0
unfolding marshal_to header
index-marshal buf law c rest =
    ap (index 0) (append_assoc (Header.marshal_to buf (header c)) (value buf c) rest)
    ∙ index-marshal_to buf law (header c) (value buf c ++ rest) (omega arith)
