-- ===== src/Chunk/Control/RoundTrip.antt =====
-- src/chunk: the chunks without a value, and the COOKIE ECHO chunk, are read back.
use mathlib.Core.List.{append_assoc, append-nil}
use sctp.Base.{
  ℕ, ◌+◌, ◌%◌, ◌^◌, ◌<◌, ◌≡◌, refl, ap, ◌∙◌, sym, List, [], ◌++◌, length, ◌==◌, arith, IsU8, IsU32,
  ◌∷◌, some, if◌then◌else◌, false, ==_refl, length-append,
}
use sctp.Error.{ok, err, Error, err_invalid_chunk_size}
use sctp.Bytes.{Buf, IsLawful, slice}
use sctp.Bytes.Reads.{slice-value}
use sctp.Chunk.Header
use sctp.Chunk.Header.{ChunkHeader, index}
use sctp.Chunk.Header.Reads.{IsPadded, unmarshal-marshal_to, length-marshal_to, index-marshal_to}
use sctp.Chunk.Control.{
  unmarshal_empty, marshal_empty, ChunkShutdown, unmarshal_shutdown, marshal_shutdown,
  ChunkCookieEcho, unmarshal_cookie_echo, marshal_cookie_echo,
}

-- A chunk without a value is read back under its own type.
pub unmarshal_empty-marshal_empty :
    (buf : Buf)
    → IsLawful buf
    → (typ : ℕ) (e : Error) (rest : List ℕ) → IsU8 typ
    → IsPadded rest
    → unmarshal_empty buf typ e (marshal_empty buf typ ++ rest) ≡ ok tt
unfolding unmarshal_empty marshal_empty
unmarshal_empty-marshal_empty buf law typ e rest t pad =
    rw
      (unmarshal-marshal_to buf law (record { typ = typ; flags = 0; value_length = 0 }) [] rest t
        (omega arith) (omega arith) refl pad)
      (rw (==_refl typ) refl)

pub length-marshal_empty :
    (buf : Buf) → IsLawful buf → (typ : ℕ) → length (marshal_empty buf typ) ≡ 4
unfolding marshal_empty
length-marshal_empty buf law typ = length-marshal_to buf law _

cookie_steps :
    (buf : Buf) (raw cookie : List ℕ) (h : ChunkHeader)
    → Header.unmarshal buf raw ≡ ok h
    → h.typ ≡ 10
    → slice 4 (4 + h.value_length) raw ≡ ok cookie
    → unmarshal_cookie_echo buf raw ≡ ok (record { cookie = cookie })
unfolding unmarshal_cookie_echo
cookie_steps buf raw cookie h e t s = rw e (rw t (rw s refl))

cookie_length : (n : ℕ) → 4 + n < 2 ^ 16 → n ≡ n % 2 ^ 16
cookie_length n h = omega arith

-- A COOKIE ECHO chunk is read back, whatever follows it in the buffer.
pub unmarshal_cookie_echo-marshal_cookie_echo :
    (buf : Buf)
    → IsLawful buf
    → (c : ChunkCookieEcho) (rest : List ℕ) → 4 + length c.cookie < 2 ^ 16
    → IsPadded rest
    → unmarshal_cookie_echo buf (marshal_cookie_echo buf c ++ rest) ≡ ok c
unfolding marshal_cookie_echo
unmarshal_cookie_echo-marshal_cookie_echo buf law c rest w pad =
    ap (unmarshal_cookie_echo buf) (append_assoc (Header.marshal_to buf h) c.cookie rest)
    ∙ cookie_steps buf (Header.marshal_to buf h ++ (c.cookie ++ rest)) c.cookie h
        (unmarshal-marshal_to buf law h c.cookie rest (omega arith) (omega arith) (omega arith)
          (cookie_length _ w) pad)
        refl
        (slice-value (Header.marshal_to buf h) c.cookie rest 0 _ (cookie_length _ w) (omega arith)
          (length-marshal_to buf law h))
  where
    h : ChunkHeader
    h = record { typ = 10; flags = 0; value_length = length c.cookie % 2 ^ 16 }

pub length-marshal_cookie_echo :
    (buf : Buf)
    → IsLawful buf
    → (c : ChunkCookieEcho) → length (marshal_cookie_echo buf c) ≡ 4 + length c.cookie
unfolding marshal_cookie_echo
length-marshal_cookie_echo buf law c =
    omega (arith, length-append (Header.marshal_to buf h) c.cookie, length-marshal_to buf law h)
  where
    h : ChunkHeader
    h = record { typ = 10; flags = 0; value_length = length c.cookie % 2 ^ 16 }

pub index-marshal_empty :
    (buf : Buf)
    → IsLawful buf
    → (typ : ℕ) (rest : List ℕ) → IsU8 typ
    → index 0 (marshal_empty buf typ ++ rest) ≡ ok typ
unfolding marshal_empty
index-marshal_empty buf law typ rest t =
    index-marshal_to buf law (record { typ = typ; flags = 0; value_length = 0 }) rest t

pub index-marshal_cookie_echo :
    (buf : Buf)
    → IsLawful buf
    → (c : ChunkCookieEcho) (rest : List ℕ) → index 0 (marshal_cookie_echo buf c ++ rest) ≡ ok 10
unfolding marshal_cookie_echo
index-marshal_cookie_echo buf law c rest =
    ap (index 0) (append_assoc (Header.marshal_to buf h) c.cookie rest)
    ∙ index-marshal_to buf law h (c.cookie ++ rest) (omega arith)
  where
    h : ChunkHeader
    h = record { typ = 10; flags = 0; value_length = length c.cookie % 2 ^ 16 }

value_word :
    (buf : Buf)
    → IsLawful buf
    → (n : ℕ) (rest : List ℕ) → IsU32 n
    → buf.get_u32 (buf.put_u32 n ++ rest) ≡ some (n, rest)
value_word buf law n rest h = law.u32.get-put n rest h

shutdown_steps :
    (buf : Buf) (raw reader r : List ℕ) (h : ChunkHeader) (tsn : ℕ)
    → Header.unmarshal buf raw ≡ ok h
    → h.typ ≡ 7
    → length raw ≡ 8
    → slice 4 (4 + h.value_length) raw ≡ ok reader
    → buf.get_u32 reader ≡ some (tsn, r)
    → unmarshal_shutdown buf raw ≡ ok (record { cumulative_tsn_ack = tsn })
unfolding unmarshal_shutdown
shutdown_steps buf raw reader r h tsn e t l s g = rw e (rw t (rw l (rw s (rw g refl))))

shutdown_refused :
    (buf : Buf) (raw : List ℕ) (h : ChunkHeader)
    → Header.unmarshal buf raw ≡ ok h
    → h.typ ≡ 7
    → (length raw == 8) ≡ false
    → unmarshal_shutdown buf raw ≡ err err_invalid_chunk_size
unfolding unmarshal_shutdown
shutdown_refused buf raw h e t l = rw e (rw t (rw l refl))

-- A SHUTDOWN chunk is read back when it is alone in its buffer, and refused as soon as anything
-- follows it, such as another chunk of the packet.
pub unmarshal_shutdown-marshal_shutdown :
    (buf : Buf)
    → IsLawful buf
    → (c : ChunkShutdown) (rest : List ℕ) → IsU32 c.cumulative_tsn_ack
    → IsPadded rest
    → unmarshal_shutdown buf (marshal_shutdown buf c ++ rest)
      ≡ (if length rest == 0 then ok c else err err_invalid_chunk_size)
unfolding marshal_shutdown
unmarshal_shutdown-marshal_shutdown buf law c rest w pad =
    ap (unmarshal_shutdown buf) (append_assoc head (buf.put_u32 c.cumulative_tsn_ack) rest)
    ∙ go rest pad
  where
    h : ChunkHeader
    h = record { typ = 7; flags = 0; value_length = 4 }

    head : List ℕ
    head = Header.marshal_to buf h

    parsed :
        (rest : List ℕ)
        → IsPadded rest
        → Header.unmarshal buf (head ++ (buf.put_u32 c.cumulative_tsn_ack ++ rest)) ≡ ok h
    parsed rest pad =
        unmarshal-marshal_to buf law h (buf.put_u32 c.cumulative_tsn_ack) rest (omega arith)
          (omega arith) (omega arith) (law.u32.length-put _) pad

    total :
        (rest : List ℕ)
        → length (head ++ (buf.put_u32 c.cumulative_tsn_ack ++ rest)) ≡ 8 + length rest
    total rest = omega (
      arith,
      length-append head (buf.put_u32 c.cumulative_tsn_ack ++ rest),
      length-append (buf.put_u32 c.cumulative_tsn_ack) rest,
      law.u32.length-put c.cumulative_tsn_ack,
      length-marshal_to buf law h,
    )

    go :
        (rest : List ℕ)
        → IsPadded rest
        → unmarshal_shutdown buf (head ++ (buf.put_u32 c.cumulative_tsn_ack ++ rest))
          ≡ (if length rest == 0 then ok c else err err_invalid_chunk_size)
    go [] pad =
        shutdown_steps buf _ (buf.put_u32 c.cumulative_tsn_ack) [] h c.cumulative_tsn_ack
          (parsed [] pad) refl (omega (arith, total []))
          (slice-value head (buf.put_u32 c.cumulative_tsn_ack) [] 0 4 (law.u32.length-put _)
            (omega arith) (length-marshal_to buf law h))
          (ap buf.get_u32 (sym (append-nil (buf.put_u32 c.cumulative_tsn_ack)))
            ∙ value_word buf law c.cumulative_tsn_ack [] w)
    go (b ∷ rest) pad =
        shutdown_refused buf _ h (parsed (b ∷ rest) pad) refl (ground (arith, total (b ∷ rest)))
        ∙ ground arith
