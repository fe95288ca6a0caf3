-- ===== src/Examples/Codec.antt =====
-- The properties of the parsers and writers, at concrete bytes.
use sctp.Base.{
  ℕ, ◌+◌, ◌*◌, ◌%◌, ◌^◌, ◌≤◌, ◌<◌, ◌≡◌, refl, List, [], ◌∷◌, ◌++◌, length, arith, All, ◌↔◌,
}
use sctp.Error.{ok, panicked}
use sctp.Error.Outcomes.{Safe}
use sctp.Bytes.{slice}
use sctp.Bytes.BigEndian.{big_endian, big_endian-IsLawful}
use sctp.Sna.{get_padding_size}
use sctp.Chunk.Header as Header
use sctp.Chunk.Header.{ChunkHeader}
use sctp.Chunk.SelectiveAck as SelectiveAck
use sctp.Chunk.SelectiveAck.RoundTrip.{unmarshal_never_panics}
use sctp.Chunk.ForwardTsn as ForwardTsn
use sctp.Chunk.ForwardTsn.Parse.{IsExact, unmarshal-Exact}
use sctp.Chunk.Init as Init
use sctp.Chunk.Init.Parse.{unmarshal_alone-Safe, unmarshal_bundled_panics}
use sctp.Param.Values.{supported_extensions}
use sctp.Param.Values as Values
use sctp.Param.Build.{build_param}
use sctp.Param.Build.Safety.{Fits, build_param-Safe}
use sctp.Packet.{Packet, payload_data, cookie_ack}
use sctp.Packet.Codec.{chunk_loop, marshal, unmarshal}
use sctp.Packet.Codec.Fuel.{Runs, chunk_loop-Runs}
use sctp.Packet.Codec.Reparse.{IsBundleable, receive_all}
use sctp.Packet.Codec.RoundTrip.{unmarshal-marshal}
use sctp.Packet.Check.{check_packet, Alone, check_packet_iff}
use sctp.Examples.{first_half, second_half}

abbrev pub digest : List ℕ → ℕ
digest bytes = length bytes % 2 ^ 32

abbrev message_packet : Packet
message_packet = record {
  source_port = 5000;
  destination_port = 5000;
  verification_tag = 7;
  chunks = payload_data first_half ∷ payload_data second_half ∷ cookie_ack ∷ [];
}

unmarshal-marshal_example :
    (bytes : List ℕ) × (marshal big_endian digest message_packet ≡ ok bytes)
    × (unmarshal big_endian digest 1 2 bytes
        ≡ ok (record message_packet { chunks = receive_all 1 2 message_packet.chunks }))
unfolding IsBundleable
unmarshal-marshal_example =
    unmarshal-marshal big_endian big_endian-IsLawful digest 1 2 message_packet
      (λ bytes. ground arith) (omega arith) (omega arith) (omega arith)
      (
        record {
          tsn = omega arith;
          stream_identifier = omega arith;
          stream_sequence_number = omega arith;
          length_field = omega arith;
        },
        (
          record {
            tsn = omega arith;
            stream_identifier = omega arith;
            stream_sequence_number = omega arith;
            length_field = omega arith;
          },
          (tt, tt),
        ),
      )

-- A SACK chunk that counts one block more than it has.
abbrev short_sack : List ℕ
short_sack = 3 ∷ 0 ∷ 0 ∷ 16 ∷ 0 ∷ 0 ∷ 0 ∷ 5 ∷ 0 ∷ 0 ∷ 4 ∷ 0 ∷ 0 ∷ 1 ∷ 0 ∷ 0 ∷ []

unmarshal_never_panics_example :
    Safe
      (λ c. 16 + (4 * length c.gap_ack_blocks + 4 * length c.duplicate_tsn) ≤ length short_sack)
      (SelectiveAck.unmarshal big_endian short_sack)
unmarshal_never_panics_example = unmarshal_never_panics big_endian big_endian-IsLawful short_sack

-- A FORWARD-TSN chunk for one stream.
abbrev forward_bytes : List ℕ
forward_bytes = 192 ∷ 0 ∷ 0 ∷ 12 ∷ 0 ∷ 0 ∷ 0 ∷ 5 ∷ 0 ∷ 1 ∷ 0 ∷ 2 ∷ []

abbrev forward_header : ChunkHeader
forward_header = record { typ = 192; flags = 0; value_length = 8 }

unmarshal-Exact_example :
    (8 < 4 → ForwardTsn.unmarshal big_endian forward_bytes ≡ panicked)
    × (4 ≤ 8
        → Safe
            (IsExact forward_bytes forward_header)
            (ForwardTsn.unmarshal big_endian forward_bytes))
unfolding Header.unmarshal big_endian
unmarshal-Exact_example =
    unmarshal-Exact big_endian big_endian-IsLawful forward_bytes forward_header (omega arith)
      (omega arith) refl refl

-- An INIT chunk with a list of two chunk types, and padding.
abbrev init_bytes : List ℕ
init_bytes =
    1 ∷ 0 ∷ 0 ∷ 26 ∷ 0 ∷ 0 ∷ 0 ∷ 5 ∷ 0 ∷ 0 ∷ 8 ∷ 0 ∷ 0 ∷ 1 ∷ 0 ∷ 1 ∷ 0 ∷ 0 ∷ 0 ∷ 9 ∷ 128 ∷ 8 ∷ 0 ∷ 6
    ∷ 130 ∷ 192 ∷ 0 ∷ 0 ∷ []

abbrev init_header : ChunkHeader
init_header = record { typ = 1; flags = 0; value_length = 22 }

unmarshal_alone-Safe_example :
    Safe (λ c. (16 ≤ 22) × (init_header.flags ≡ 0)) (Init.unmarshal big_endian init_bytes)
unfolding Header.unmarshal big_endian
unmarshal_alone-Safe_example =
    unmarshal_alone-Safe big_endian big_endian-IsLawful init_bytes init_header refl (omega arith)

-- The same chunk in front of another one.
abbrev bundled_bytes : List ℕ
bundled_bytes = init_bytes ++ (11 ∷ 0 ∷ 0 ∷ 4 ∷ 11 ∷ 0 ∷ 0 ∷ 4 ∷ [])

unmarshal_bundled_panics_example : Init.unmarshal big_endian bundled_bytes ≡ panicked
unfolding Header.unmarshal big_endian slice build_param Values.value_length get_padding_size
unmarshal_bundled_panics_example =
    unmarshal_bundled_panics big_endian big_endian-IsLawful bundled_bytes init_header
      (128 ∷ 8 ∷ 0 ∷ 6 ∷ 130 ∷ 192 ∷ []) (supported_extensions (130 ∷ 192 ∷ [])) refl refl refl refl
      refl refl (omega arith) (omega arith)

-- A parameter whose length field counts more than there is.
build_param-Safe_example :
    Safe (Fits (128 ∷ 8 ∷ 0 ∷ 9 ∷ 130 ∷ [])) (build_param big_endian (128 ∷ 8 ∷ 0 ∷ 9 ∷ 130 ∷ []))
build_param-Safe_example =
    build_param-Safe big_endian big_endian-IsLawful (128 ∷ 8 ∷ 0 ∷ 9 ∷ 130 ∷ [])

check_packet_iff_example :
    (check_packet message_packet ≡ ok tt)
    ↔ ((0 < 5000) × (0 < 5000) × All (Alone message_packet) message_packet.chunks)
check_packet_iff_example = check_packet_iff message_packet

chunk_loop-Runs_example :
    Runs big_endian 1 bundled_bytes 2 12 (chunk_loop big_endian 1 25 2 12 bundled_bytes)
chunk_loop-Runs_example =
    chunk_loop-Runs big_endian 1 bundled_bytes 25 2 12 (omega arith) (omega arith)
