-- ===== src/Packet/Codec/RoundTrip.antt =====
-- src/packet.rs: a packet of chunks of the types that `IsBundleable` allows is read back from its
-- bytes.
use mathlib.Core.List.{append_assoc, append-nil}
use sctp.Base.{
  ℕ, zero, suc, ◌+◌, ◌%◌, ◌≤◌, ◌<◌, ◌≡◌, refl, subst, ap, ◌∙◌, sym, List, [], ◌∷◌, ◌++◌, length,
  ◌==◌, false, arith, IsU16, IsU32, All, some, length-append, drop-append_length, le→leb,
  take-append_length, drop-append_plus, ==_refl,
}
use sctp.Error.{ok}
use sctp.Bytes.{Buf, IsLawful, slice_from}
use sctp.Bytes.Reads.{length-put-append}
use sctp.Sna.{get_padding_size}
use sctp.Chunk.Header.{index}
use sctp.Chunk.Header.Reads.{IsPadded, index-append}
use sctp.Chunk.Init.{zeroes}
use sctp.Packet.{Chunk, Packet, value_length}
use sctp.Packet.Codec.{
  unmarshal_chunk, chunk_loop, generate_packet_checksum, unmarshal, write_chunks, marshal,
}
use sctp.Packet.Codec.Reparse.{
  IsBundleable, receive, receive_all, value_length-receive, Reparses, reparses,
}

length-zeroes : (n : ℕ) → length (zeroes n) ≡ n
unfolding zeroes
length-zeroes zero = refl
length-zeroes (suc n) = ap suc (length-zeroes n)

zeroes-All : (n : ℕ) → All (λ b. b ≡ 0) (zeroes n)
unfolding zeroes
zeroes-All zero = tt
zeroes-All (suc n) = (refl, zeroes-All n)

padded : (n : ℕ) → ((n + get_padding_size n) % 4 ≡ 0) × (get_padding_size n < 4)
unfolding get_padding_size
padded n = omega arith

-- Padding depends on the length modulo four.
padding_shift : (a b : ℕ) → a % 4 ≡ 0 → get_padding_size (a + b) ≡ get_padding_size b
unfolding get_padding_size
padding_shift a b h = omega arith

slice_from_front : (front back : List ℕ) → slice_from (length front) (front ++ back) ≡ ok back
unfolding slice_from
slice_from_front front back =
    rw (le→leb (length front) (length (front ++ back)) (omega (arith, length-append front back)))
      (ap ok (drop-append_length (length front) front back refl))

-- What follows a chunk: its padding, and then whole words.
padding-IsPadded :
    (n : ℕ) (body : List ℕ) → n < 4 → length body % 4 ≡ 0 → IsPadded (zeroes n ++ body)
padding-IsPadded n [] h a short =
    subst (All (λ b. b ≡ 0)) (sym (append-nil (zeroes n))) (zeroes-All n)
padding-IsPadded n (b ∷ body) h a short =
    absurd (omega (arith, length-append (zeroes n) (b ∷ body), length-zeroes n))

module _ (buf : Buf) (law : IsLawful buf) (now : ℕ) where
  -- The body of a packet: what is written for the chunks, and parsed back behind any front.
  record Body (chunks : List Chunk) (body : List ℕ) : Type 0 where
    aligned : length body % 4 ≡ 0
    written : (raw : List ℕ) → length raw % 4 ≡ 0 → write_chunks buf raw chunks ≡ ok (raw ++ body)
    parsed :
        (front : List ℕ) (fuel fresh : ℕ)
        → length body < fuel
        → chunk_loop buf now fuel fresh (length front) (front ++ body)
          ≡ ok (receive_all now fresh chunks)

  empty-Body : Body [] []
  unfolding write_chunks chunk_loop receive_all
  empty-Body = record {
    aligned = refl;
    written = λ raw h. ap ok (sym (append-nil raw));
    parsed = λ front fuel fresh h. at_end front fuel fresh h;
  }
    where
      at_end :
          (front : List ℕ) (fuel fresh : ℕ)
          → 0 < fuel
          → chunk_loop buf now fuel fresh (length front) (front ++ []) ≡ ok []
      at_end front zero fresh h = absurd (omega arith)
      at_end front (suc fuel) fresh h =
          rw (append-nil front, ==_refl (length front), chunk_loop) refl

  -- The bytes of one chunk with its padding, before the rest of the packet.
  joined : List ℕ → List ℕ → List ℕ
  joined bytes body = bytes ++ (zeroes (get_padding_size (length bytes)) ++ body)

  length-joined :
      (bytes body : List ℕ)
      → length (joined bytes body) ≡ length bytes + (get_padding_size (length bytes) + length body)
  unfolding joined
  length-joined bytes body = omega (
    arith,
    length-append bytes (zeroes (get_padding_size (length bytes)) ++ body),
    length-append (zeroes (get_padding_size (length bytes))) body,
    length-zeroes (get_padding_size (length bytes)),
  )

  cons_written :
      (c : Chunk) (chunks : List Chunk) (bytes body raw : List ℕ)
      → Reparses buf now c bytes
      → Body chunks body
      → length raw % 4 ≡ 0
      → write_chunks buf raw (c ∷ chunks) ≡ ok (raw ++ joined bytes body)
  unfolding write_chunks joined
  cons_written c chunks bytes body raw r b h = rw r.written (
      ap (λ k. write_chunks buf ((raw ++ bytes) ++ zeroes k) chunks) pad_eq
      ∙ b.written ((raw ++ bytes) ++ zeroes pad) (
          omega (
            arith,
            length-append (raw ++ bytes) (zeroes pad),
            length-append raw bytes,
            length-zeroes pad,
            (padded (length bytes)).0,
          ))
      ∙ ap ok (
          append_assoc (raw ++ bytes) (zeroes pad) body
          ∙ append_assoc raw bytes (zeroes pad ++ body)))
    where
      pad : ℕ
      pad = get_padding_size (length bytes)

      pad_eq : get_padding_size (length (raw ++ bytes)) ≡ get_padding_size (length bytes)
      pad_eq =
          ap get_padding_size (length-append raw bytes)
          ∙ padding_shift (length raw) (length bytes) h

  cons_parsed :
      (c : Chunk) (chunks : List Chunk) (bytes body front : List ℕ) (fuel fresh : ℕ)
      → Reparses buf now c bytes
      → Body chunks body
      → length (joined bytes body) < fuel
      → chunk_loop buf now fuel fresh (length front) (front ++ joined bytes body)
        ≡ ok (receive_all now fresh (c ∷ chunks))
  unfolding chunk_loop receive_all joined
  cons_parsed c chunks bytes body front zero fresh r b h = absurd (omega arith)
  cons_parsed c chunks bytes body front (suc fuel) fresh r b h =
      rw (not_at_end, chunk_loop)
        (rw (le→leb (length front + 4) (length raw) (omega (arith, total, r.size))) (
          rw here
            (rw (slice_from_front front (joined bytes body)) (rw parsed_here (rw onwards refl)))))
    where
      raw : List ℕ
      raw = front ++ joined bytes body

      pad : ℕ
      pad = get_padding_size (length bytes)

      front' : List ℕ
      front' = front ++ (bytes ++ zeroes pad)

      length_front' : length front' ≡ length front + (length bytes + pad)
      length_front' = omega (
        arith,
        length-append front (bytes ++ zeroes pad),
        length-append bytes (zeroes pad),
        length-zeroes pad,
      )

      next_offset :
          length front
            + (4
                + value_length (receive now fresh c)
                + get_padding_size (value_length (receive now fresh c)))
          ≡ length front + (length bytes + pad)
      next_offset = omega (
        arith,
        r.size,
        value_length-receive now fresh c,
        ap get_padding_size (value_length-receive now fresh c),
        padding_shift 4 (value_length c) refl,
        ap get_padding_size r.size,
      )

      total :
          length raw
          ≡ length front + (length bytes + (get_padding_size (length bytes) + length body))
      total = omega (arith, length-append front (joined bytes body), length-joined bytes body)

      not_at_end : (length front == length raw) ≡ false
      not_at_end = ground (arith, total, r.size)

      here : index (length front) raw ≡ ok r.typ
      here =
          ap (λ k. index k raw) {y = length front + 0} (omega arith)
          ∙ index-append front (joined bytes body) 0
          ∙ r.first (zeroes pad ++ body)

      parsed_here :
          unmarshal_chunk buf now fresh r.typ (joined bytes body) ≡ ok (receive now fresh c)
      parsed_here =
          r.parsed fresh (zeroes pad ++ body)
            (padding-IsPadded pad body (padded (length bytes)).1 b.aligned)

      onwards :
          chunk_loop buf now fuel
            (fresh + 2)
            (length front
              + (4
                  + value_length (receive now fresh c)
                  + get_padding_size (value_length (receive now fresh c))))
            raw
          ≡ ok (receive_all now (fresh + 2) chunks)
      onwards =
          ap (λ k. chunk_loop buf now fuel (fresh + 2) k raw) (next_offset ∙ sym length_front')
          ∙ ap (chunk_loop buf now fuel (fresh + 2) (length front')) (
              ap (λ x. front ++ x) (sym (append_assoc bytes (zeroes pad) body))
              ∙ sym (append_assoc front (bytes ++ zeroes pad) body))
          ∙ b.parsed front' fuel (fresh + 2) (omega (arith, length-joined bytes body, r.size))

  cons-Body :
      (c : Chunk) (chunks : List Chunk) (bytes body : List ℕ)
      → Reparses buf now c bytes
      → Body chunks body
      → Body (c ∷ chunks) (joined bytes body)
  cons-Body c chunks bytes body r b = record {
    aligned = omega (arith, length-joined bytes body, padded (length bytes), b.aligned);
    written = λ raw h. cons_written c chunks bytes body raw r b h;
    parsed = λ front fuel fresh h. cons_parsed c chunks bytes body front fuel fresh r b h;
  }

  bodies : (chunks : List Chunk) → All IsBundleable chunks → (body : List ℕ) × Body chunks body
  bodies [] h = ([], empty-Body)
  bodies (c ∷ chunks) h =
      let (body, b) = bodies chunks h.1 in
      let (bytes, r) = reparses buf law now c h.0 in
      (joined bytes body, cons-Body c chunks bytes body r b)

-- The receiver's checksum skips the four bytes of the sender's.
checksum :
    (crc : List ℕ → ℕ) (writer sent body : List ℕ)
    → length writer ≡ 8
    → length sent ≡ 4
    → generate_packet_checksum crc (writer ++ (sent ++ body)) ≡ crc (writer ++ (zeroes 4 ++ body))
unfolding generate_packet_checksum
checksum crc writer sent body w k =
    rw
      (
        take-append_length 8 writer (sent ++ body) w,
        drop-append_plus 12 4 writer (sent ++ body) (omega arith)
            ∙ drop-append_length 4 sent body k,
      )
      refl

unmarshal_steps :
    (buf : Buf) (crc : List ℕ → ℕ) (now fresh : ℕ) (raw r1 r2 r3 r4 : List ℕ)
    (source destination tag k : ℕ) (chunks : List Chunk)
    → 12 ≤ length raw
    → buf.get_u16 raw ≡ some (source, r1)
    → buf.get_u16 r1 ≡ some (destination, r2)
    → buf.get_u32 r2 ≡ some (tag, r3)
    → buf.get_u32_le r3 ≡ some (k, r4)
    → k ≡ generate_packet_checksum crc raw
    → chunk_loop buf now (length raw + 1) fresh 12 raw ≡ ok chunks
    → unmarshal buf crc now fresh raw
      ≡ ok (record {
        source_port = source;
        destination_port = destination;
        verification_tag = tag;
        chunks = chunks;
      })
unfolding unmarshal
unmarshal_steps buf crc now fresh raw r1 r2 r3 r4 source destination tag k chunks l e1 e2 e3 e4 c
      d =
    rw (le→leb 12 (length raw) l) (
      rw e1 (
        rw e2 (
          rw e3 (
            rw e4 (
              rw
                (ap (λ j. j == generate_packet_checksum crc raw) c
                  ∙ ==_refl (generate_packet_checksum crc raw))
                (rw d refl))))))

-- A packet of any number of DATA, SACK, COOKIE ECHO, COOKIE ACK, SHUTDOWN ACK and SHUTDOWN COMPLETE
-- chunks, in any order and with every field in its range, marshals to bytes that parse back to it:
-- the checksum matches, every chunk is found behind the padding of the one before, and the chunks
-- come in order, with the sender's marks of the DATA chunks reset. No other chunk is covered.
pub unmarshal-marshal :
    (buf : Buf)
    → IsLawful buf
    → (crc : List ℕ → ℕ) (now fresh : ℕ) (p : Packet) → ((bytes : List ℕ) → IsU32 (crc bytes))
    → IsU16 p.source_port
    → IsU16 p.destination_port
    → IsU32 p.verification_tag
    → All IsBundleable p.chunks
    → (bytes : List ℕ) × (marshal buf crc p ≡ ok bytes)
      × (unmarshal buf crc now fresh bytes
          ≡ ok (record p { chunks = receive_all now fresh p.chunks }))
unfolding marshal
unmarshal-marshal buf law crc now fresh p digest s d t h =
    let (body, b) = bodies buf law now p.chunks h in
    (writer ++ (buf.put_u32_le (sum body) ++ body), rw (b.written [] refl) refl, parse body b)
  where
    writer : List ℕ
    writer =
        buf.put_u16 p.source_port
        ++ (buf.put_u16 p.destination_port ++ buf.put_u32 p.verification_tag)

    sum : List ℕ → ℕ
    sum body = crc (writer ++ (zeroes 4 ++ body))

    writer_length : length writer ≡ 8
    writer_length = omega (
      arith,
      length-put-append law.u16 p.source_port
          (buf.put_u16 p.destination_port ++ buf.put_u32 p.verification_tag),
      length-put-append law.u16 p.destination_port (buf.put_u32 p.verification_tag),
      law.u32.length-put p.verification_tag,
    )

    flat :
        (tail : List ℕ)
        → (writer ++ tail) ≡ (
            buf.put_u16 p.source_port
            ++ (buf.put_u16 p.destination_port ++ (buf.put_u32 p.verification_tag ++ tail)))
    flat tail =
        append_assoc (buf.put_u16 p.source_port)
          (buf.put_u16 p.destination_port ++ buf.put_u32 p.verification_tag) tail
        ∙ ap (λ r. buf.put_u16 p.source_port ++ r)
            (append_assoc (buf.put_u16 p.destination_port) (buf.put_u32 p.verification_tag) tail)

    parse :
        (body : List ℕ)
        → Body buf law now p.chunks body
        → unmarshal buf crc now fresh (writer ++ (buf.put_u32_le (sum body) ++ body))
          ≡ ok (record p { chunks = receive_all now fresh p.chunks })
    parse body b =
        unmarshal_steps buf crc now fresh (writer ++ tail) _ _ _ body p.source_port
          p.destination_port p.verification_tag (sum body) (receive_all now fresh p.chunks)
          (omega (arith, total)) (ap buf.get_u16 (flat tail) ∙ law.u16.get-put _ _ s)
          (law.u16.get-put _ _ d) (law.u32.get-put _ _ t)
          (law.u32_le.get-put (sum body) body (digest (writer ++ (zeroes 4 ++ body))))
          (sym (
            checksum crc writer (buf.put_u32_le (sum body)) body writer_length
              (law.u32_le.length-put (sum body))))
          (ap (chunk_loop buf now (length (writer ++ tail) + 1) fresh 12)
              (sym (append_assoc writer (buf.put_u32_le (sum body)) body))
            ∙ ap (λ k. chunk_loop buf now (length (writer ++ tail) + 1) fresh k (front ++ body))
                (sym front_length)
            ∙ b.parsed front (length (writer ++ tail) + 1) fresh (omega (arith, total)))
      where
        tail : List ℕ
        tail = buf.put_u32_le (sum body) ++ body

        front : List ℕ
        front = writer ++ buf.put_u32_le (sum body)

        front_length : length front ≡ 12
        front_length = omega (
          arith,
          length-append writer (buf.put_u32_le (sum body)),
          writer_length,
          law.u32_le.length-put (sum body),
        )

        total : length (writer ++ tail) ≡ 12 + length body
        total = omega (
          arith,
          length-append writer tail,
          writer_length,
          length-put-append law.u32_le (sum body) body,
        )
