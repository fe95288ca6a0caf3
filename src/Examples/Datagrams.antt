-- ===== src/Examples/Datagrams.antt =====
-- The handshake over bytes: the read loops get what `marshal` makes of the packets that are due.
use sctp.Base.{ℕ, ◌≡◌, refl, List, [], ◌∷◌, false}
use sctp.Error.{ok}
use sctp.Bytes.BigEndian.{big_endian}
use sctp.Param.Values as Values
use sctp.Chunk.Header as Header
use sctp.Chunk.Init as Init
use sctp.Bytes.{slice, slice_from}
use sctp.Param.Build.{build_param}
use sctp.Chunk.Control.{
  unmarshal_cookie_ack, marshal_empty, unmarshal_cookie_echo, marshal_cookie_echo,
}
use sctp.Packet.Check.{check_packet}
use sctp.Association.Handshake.{handle_init, handle_init_ack, handle_cookie_echo, handle_cookie_ack}
use sctp.Association.Receive.{handle_chunk_start, handle_chunk_end}
use sctp.Packet.{Packet}
use sctp.Packet.Codec.{marshal, unmarshal}
use sctp.Association.State.{AssociationState, established, as_u8}
use sctp.Association.Inbound.Network.{Network, read_loop, drain_control_queue}
use sctp.Association.Inbound.Network.Connect.{start}
use sctp.Examples.Codec.{digest}
use sctp.Examples.Handshake.{default_config, small_config}

-- The bytes of packets, each as one datagram.
abbrev datagrams : List Packet → List (List ℕ)
unfolding marshal
datagrams [] = []
datagrams (p ∷ packets) = elim (marshal big_endian digest p) [
  | ok bytes ↦ bytes ∷ datagrams packets
  | _ ↦ datagrams packets
]

abbrev byte_round : Network → Network
unfolding read_loop drain_control_queue
byte_round n =
    let (ps, client) = drain_control_queue n.client in
    let (qs, server) =
      drain_control_queue (read_loop big_endian digest 1 0 (1 ∷ 2 ∷ []) n.server (datagrams ps)) in
    record {
      client = read_loop big_endian digest 1 0 (1 ∷ 2 ∷ []) client (datagrams qs);
      server = server;
    }

abbrev states : AssociationState × AssociationState
states =
    let n =
      byte_round (byte_round (start default_config small_config 0 4 4294967295 6 (λ _. false))) in
    (n.client.state, n.server.state)

-- At these inputs two rounds of datagrams, written, checked and parsed, connect both endpoints.
handshake_on_bytes : states ≡ (established, established)
unfolding byte_round datagrams slice slice_from big_endian Values.marshal build_param
    Header.unmarshal Header.marshal_to Init.unmarshal Init.marshal_to Init.check
    unmarshal_cookie_ack marshal_empty unmarshal_cookie_echo marshal_cookie_echo unmarshal
    check_packet as_u8 handle_init handle_init_ack handle_cookie_echo handle_cookie_ack start
    handle_chunk_start handle_chunk_end
handshake_on_bytes = refl
