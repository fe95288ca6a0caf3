-- ===== src/Packet/Codec/Reparse.antt =====
-- src/packet.rs: the chunks that are parsed back from the middle of a packet.
use sctp.Base.{ℕ, ◌+◌, ◌^◌, ◌<◌, ◌≡◌, refl, List, [], ◌∷◌, ◌++◌, length, arith, IsU8}
use sctp.Error.{
  ok, Error, err_chunk_type_not_cookie_ack, err_chunk_type_not_shutdown_ack,
  err_chunk_type_not_shutdown_complete,
}
use sctp.Bytes.{Buf, IsLawful}
use sctp.Chunk.Header.{index}
use sctp.Chunk.Header.Reads.{IsPadded}
use sctp.Chunk.PayloadData.Codec.RoundTrip as Data
use sctp.Chunk.SelectiveAck.RoundTrip as Sack
use sctp.Chunk.PayloadData.Codec as DataCodec
use sctp.Chunk.SelectiveAck as SackCodec
use sctp.Chunk.Control as Control
use sctp.Chunk.Control.{ChunkCookieEcho}
use sctp.Chunk.Control.RoundTrip.{
  unmarshal_empty-marshal_empty, length-marshal_empty, unmarshal_cookie_echo-marshal_cookie_echo,
  length-marshal_cookie_echo, index-marshal_empty, index-marshal_cookie_echo,
}
use sctp.Packet.{
  Chunk, value_length, cookie_echo, cookie_ack, payload_data, sack, shutdown_ack, shutdown_complete,
}
use sctp.Packet.Codec.{unmarshal_chunk, marshal_chunk}

-- The chunks that the parsers take wherever they stand in a packet, with the words of their fields
-- in range. An INIT, SHUTDOWN, FORWARD-TSN, ABORT or ERROR chunk has to be the last; RE-CONFIG,
-- HEARTBEAT and unknown chunks are left out.
unfoldable pub IsBundleable : Chunk → Type 0
IsBundleable (payload_data c) = Data.IsWire c
IsBundleable (sack c) = Sack.IsWire c
IsBundleable (cookie_echo c) = 4 + length c.cookie < 2 ^ 16
IsBundleable cookie_ack = Unit
IsBundleable shutdown_ack = Unit
IsBundleable shutdown_complete = Unit
IsBundleable _ = ⊥

-- The chunk that the peer gets: the marks of a DATA chunk's sender are reset.
unfoldable pub receive : (now fresh : ℕ) → Chunk → Chunk
receive now fresh (payload_data c) = payload_data (Data.received now fresh (fresh + 1) c)
receive now fresh c = c

unfoldable pub receive_all : (now fresh : ℕ) → List Chunk → List Chunk
unfolding receive
receive_all now fresh [] = []
receive_all now fresh (c ∷ chunks) = receive now fresh c ∷ receive_all now (fresh + 2) chunks

pub value_length-receive :
    (now fresh : ℕ) (c : Chunk) → value_length (receive now fresh c) ≡ value_length c
unfolding receive value_length Data.received DataCodec.value_length
value_length-receive now fresh c = ground arith

-- What makes the bytes of one chunk parse in place.
pub record Reparses (buf : Buf) (now : ℕ) (c : Chunk) (bytes : List ℕ) : Type 0 where
  pub written : marshal_chunk buf c ≡ ok bytes
  pub size : length bytes ≡ 4 + value_length c
  pub typ : ℕ
  pub first : (rest : List ℕ) → index 0 (bytes ++ rest) ≡ ok typ
  pub parsed :
      (fresh : ℕ) (rest : List ℕ)
      → IsPadded rest
      → unmarshal_chunk buf now fresh typ (bytes ++ rest) ≡ ok (receive now fresh c)

module _ (buf : Buf) (law : IsLawful buf) (now : ℕ) where
  empty-Reparses :
      (c : Chunk) (typ : ℕ) (e : Error)
      → IsU8 typ
      → marshal_chunk buf c ≡ ok (Control.marshal_empty buf typ)
      → value_length c ≡ 0
      → ((fresh : ℕ) (raw : List ℕ)
          → Control.unmarshal_empty buf typ e raw ≡ ok tt
          → unmarshal_chunk buf now fresh typ raw ≡ ok (receive now fresh c))
      → (bytes : List ℕ) × Reparses buf now c bytes
  empty-Reparses c typ e t w v parse = (
    Control.marshal_empty buf typ,
    record {
      written = w;
      size = omega (arith, length-marshal_empty buf law typ);
      typ = typ;
      first = λ rest. index-marshal_empty buf law typ rest t;
      parsed =
          λ fresh rest pad. parse fresh _ (unmarshal_empty-marshal_empty buf law typ e rest t pad);
    },
  )

  pub reparses : (c : Chunk) → IsBundleable c → (bytes : List ℕ) × Reparses buf now c bytes
  unfolding IsBundleable marshal_chunk value_length unmarshal_chunk receive
      Control.unmarshal_cookie_ack Control.unmarshal_shutdown_ack
      Control.unmarshal_shutdown_complete
  reparses (payload_data c) wire = (
    DataCodec.marshal_to buf c,
    record {
      written = refl;
      size = Data.length-marshal_to buf law c;
      typ = 0;
      first = Data.index-marshal buf law c;
      parsed = λ fresh rest pad.
          rw (Data.unmarshal-marshal_to buf law now fresh (fresh + 1) c rest wire pad) refl;
    },
  )
  reparses (sack c) wire = (
    SackCodec.marshal_to buf c,
    record {
      written = refl;
      size = Sack.length-marshal_to buf law c;
      typ = 3;
      first = Sack.index-marshal buf law c;
      parsed = λ fresh rest pad. rw (Sack.unmarshal-marshal_to buf law c rest wire pad) refl;
    },
  )
  reparses (cookie_echo c) wire = (
    Control.marshal_cookie_echo buf c,
    record {
      written = refl;
      size = length-marshal_cookie_echo buf law c;
      typ = 10;
      first = index-marshal_cookie_echo buf law c;
      parsed = λ fresh rest pad.
          rw (unmarshal_cookie_echo-marshal_cookie_echo buf law c rest wire pad) refl;
    },
  )
  reparses cookie_ack wire =
      empty-Reparses cookie_ack 11 err_chunk_type_not_cookie_ack (omega arith) refl refl
        (λ fresh raw h. rw (h, Control.unmarshal_cookie_ack) refl)
  reparses shutdown_ack wire =
      empty-Reparses shutdown_ack 8 err_chunk_type_not_shutdown_ack (omega arith) refl refl
        (λ fresh raw h. rw (h, Control.unmarshal_shutdown_ack) refl)
  reparses shutdown_complete wire =
      empty-Reparses shutdown_complete 14 err_chunk_type_not_shutdown_complete (omega arith) refl
        refl (λ fresh raw h. rw (h, Control.unmarshal_shutdown_complete) refl)
  reparses _ wire = absurd wire
