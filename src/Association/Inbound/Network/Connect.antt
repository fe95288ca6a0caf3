-- ===== src/Association/Inbound/Network/Connect.antt =====
-- src/association: the handshake completes.
use sctp.Base.{
  ℕ, ◌≤◌, ◌<◌, ◌≡◌, ◌⊎◌, refl, sym, subst, ap, ◌∙◌, true, false, List, [], ◌∷◌, none, arith,
  ==_refl,
}
use sctp.Error.{ok}
use sctp.Bytes.{Buf}
use sctp.Chunk.PayloadData.{Cells}
use sctp.Chunk.Init
use sctp.Chunk.Init.Parse.{check_iff}
use sctp.Chunk.Init.{ChunkInit, set_supported_extensions}
use sctp.Packet.{Packet, Chunk, init, cookie_echo, cookie_ack}
use sctp.Packet.Check.{check_packet, check_chunks, is_init}
use sctp.Association.State.{established, as_u8}
use sctp.Association.Internal.{Association, set_state, awake_write_loop, outbound_packet, after}
use sctp.Association.Create.{Config, new, new_internal, send_init, first_init}
use sctp.Association.Handshake.{
  handle_init, accept_init, before_initial_tsn, handle_init_ack, handle_cookie_echo, match_cookie,
  handle_cookie_ack, offers_forward_tsn, lists_forward_tsn, init_ack, init_ack_params, cookie_or,
  find_cookie, echo_cookie, send_cookie_echo, same_bytes, complete,
}
use sctp.Association.Receive.{handle_chunk_start, handle_chunk_end}
use sctp.Association.Inbound.{
  handle_packet, handle_chunks, handle_chunk, check_chunk, dispatch, enqueue,
}
use sctp.Association.Inbound.Network.{Network, round, drain_control_queue, hand_over, received}

same_bytes_refl : (bytes : List ℕ) → same_bytes bytes bytes ≡ true
unfolding same_bytes
same_bytes_refl [] = refl
same_bytes_refl (b ∷ bytes) = rw (==_refl b) (same_bytes_refl bytes)

-- Two endpoints as `new` makes them, one as a client.
unfoldable pub start : (client server : Config) → (tsn_c tag_c tsn_s tag_s : ℕ) → Cells → Network
unfolding new
start client server tsn_c tag_c tsn_s tag_s cells = record {
  client = (new client true tsn_c tag_c cells).0;
  server = (new server false tsn_s tag_s cells).0;
}

-- What the peer must be able to offer: a window of 1500 bytes, or the default.
abbrev pub IsRoomy : Config → Type 0
IsRoomy config = (config.max_receive_buffer_size ≡ 0) ⊎ (1500 ≤ config.max_receive_buffer_size)

module _ (buf : Buf) (now : ℕ) (cookie : List ℕ) (a a' : Association) (p : Packet) (c : Chunk)
    (ps : List Packet) where
  handle_chunk_ok :
      check_chunk c ≡ ok tt
      → dispatch buf now cookie a p c ≡ (a', ok ps)
      → handle_chunk buf now cookie a p c ≡ (enqueue a' ps, ok tt)
  unfolding handle_chunk
  handle_chunk_ok h e =
      rw (h, handle_chunk) (ap (λ x. after x (λ a packets. (enqueue a packets, ok tt))) e)

  handle_chunks_one :
      check_chunk c ≡ ok tt
      → dispatch buf now cookie a p c ≡ (a', ok ps)
      → handle_chunks buf now cookie a p (c ∷ []) ≡ (enqueue a' ps, ok tt)
  unfolding handle_chunks
  handle_chunks_one h e = ap (λ x. after x (λ a _. (a, ok tt))) (handle_chunk_ok h e)

handle_packet_one :
    (buf : Buf) (now : ℕ) (cookie : List ℕ) (a x : Association) (p : Packet)
    → check_packet p ≡ ok tt
    → handle_chunks buf now cookie (handle_chunk_start a) p p.chunks ≡ (x, ok tt)
    → handle_packet buf now cookie a p ≡ (handle_chunk_end x, ok tt)
unfolding handle_packet
handle_packet_one buf now cookie a x p h e =
    rw (h, handle_packet) (ap (λ y. after y (λ a _. (handle_chunk_end a, ok tt))) e)

-- A packet of one chunk, whose checks succeed, reaches the chunk's handler.
read_one :
    (buf : Buf) (now : ℕ) (cookie : List ℕ) (a a' : Association) (p : Packet) (c : Chunk)
    (ps : List Packet)
    → p.chunks ≡ c ∷ []
    → check_packet p ≡ ok tt
    → check_chunk c ≡ ok tt
    → dispatch buf now cookie (handle_chunk_start a) p c ≡ (a', ok ps)
    → hand_over buf now cookie a (p ∷ []) ≡ handle_chunk_end (enqueue a' ps)
unfolding hand_over received
read_one buf now cookie a a' p c ps h1 h2 h3 h4 =
    ap (λ x. received x (λ b. b))
      (handle_packet_one buf now cookie a (enqueue a' ps) p h2 (
        ap (handle_chunks buf now cookie (handle_chunk_start a) p) h1
        ∙ handle_chunks_one buf now cookie (handle_chunk_start a) a' p c ps h3 h4))

module _ (buf : Buf) (now : ℕ) (cookie : List ℕ) (client server : Config)
    (tsn_c tag_c tsn_s tag_s : ℕ) (cells : Cells) where
  n0 : Network
  n0 = start client server tsn_c tag_c tsn_s tag_s cells

  -- The client sent its INIT.
  client1 : Association
  unfolding n0
  client1 = (drain_control_queue n0.client).1

  first_packet : Packet
  unfolding n0
  first_packet =
      outbound_packet n0.client (init (first_init (new_internal client tsn_c tag_c cells)))

  -- The server answered with its INIT ACK.
  server1 : Association
  unfolding n0 first_packet
  server1 =
      (handle_init (handle_chunk_start n0.server) first_packet
        (first_init (new_internal client tsn_c tag_c cells)) cookie).0

  answer : ChunkInit
  unfolding server1
  answer = set_supported_extensions (
      init_ack_params server1
        (init_ack server1 (first_init (new_internal client tsn_c tag_c cells))))

  first_round :
      Init.check (first_init (new_internal client tsn_c tag_c cells)) ≡ ok tt
      → hand_over buf now cookie n0.server (n0.client.control_queue)
        ≡ handle_chunk_end (enqueue server1 (outbound_packet server1 (init answer) ∷ []))
  unfolding n0 first_packet server1 answer start new new_internal send_init first_init set_state
      awake_write_loop outbound_packet check_packet check_chunks is_init check_chunk dispatch
      handle_init accept_init as_u8 handle_chunk_start
  first_round h =
      read_one buf now cookie n0.server server1 first_packet
        (init (first_init (new_internal client tsn_c tag_c cells)))
        (outbound_packet server1 (init answer) ∷ []) refl refl h refl

  client2 : Association
  unfolding client1 server1 answer
  client2 =
      (handle_init_ack (handle_chunk_start client1) (outbound_packet server1 (init answer))
        answer).0

  second_read :
      Init.check answer ≡ ok tt
      → hand_over buf now cookie client1 (outbound_packet server1 (init answer) ∷ [])
        ≡ handle_chunk_end client2
  unfolding n0 first_packet server1 answer start new new_internal send_init first_init set_state
      awake_write_loop outbound_packet check_packet check_chunks is_init check_chunk dispatch
      handle_init accept_init as_u8 handle_chunk_start client1 client2 drain_control_queue
      handle_init_ack echo_cookie send_cookie_echo find_cookie offers_forward_tsn lists_forward_tsn
      init_ack init_ack_params set_supported_extensions before_initial_tsn cookie_or enqueue
  second_read h =
      read_one buf now cookie client1 client2 (outbound_packet server1 (init answer)) (init answer)
        [] refl refl h refl

  -- The server as it waits for the cookie, and the client as it waits for the acknowledgement.
  server2 : Association
  unfolding server1 answer
  server2 =
      (drain_control_queue
        (handle_chunk_end (enqueue server1 (outbound_packet server1 (init answer) ∷ [])))).1

  client3 : Association
  unfolding client2
  client3 = (drain_control_queue (handle_chunk_end client2)).1

  echo : Packet
  unfolding client2
  echo = outbound_packet client2 (cookie_echo (record { cookie = cookie }))

  server3 : Association
  unfolding server2
  server3 = complete (record (handle_chunk_start server2) { t1init = false; stored_init = none })

  client4 : Association
  unfolding client3
  client4 = complete (handle_chunk_start client3)

  third_read :
      hand_over buf now cookie server2 (echo ∷ [])
      ≡ handle_chunk_end (enqueue server3 (outbound_packet server2 cookie_ack ∷ []))
  unfolding n0 first_packet server1 answer start new new_internal send_init first_init set_state
      awake_write_loop outbound_packet check_packet check_chunks is_init check_chunk dispatch
      handle_init accept_init as_u8 handle_chunk_start handle_chunk_end client1 client2
      drain_control_queue handle_init_ack echo_cookie send_cookie_echo find_cookie
      offers_forward_tsn lists_forward_tsn init_ack init_ack_params set_supported_extensions
      before_initial_tsn cookie_or enqueue server2 server3 echo handle_cookie_echo match_cookie
      complete
  third_read =
      read_one buf now cookie server2 server3 echo (cookie_echo (record { cookie = cookie }))
        (outbound_packet server2 cookie_ack ∷ []) refl refl refl
        (rw (same_bytes_refl cookie, dispatch, handle_cookie_echo, match_cookie) refl)

  fourth_read :
      hand_over buf now cookie client3 (outbound_packet server2 cookie_ack ∷ [])
      ≡ handle_chunk_end client4
  unfolding n0 first_packet server1 answer start new new_internal send_init first_init set_state
      awake_write_loop outbound_packet check_packet check_chunks is_init check_chunk dispatch
      handle_init accept_init as_u8 handle_chunk_start handle_chunk_end client1 client2
      drain_control_queue handle_init_ack echo_cookie send_cookie_echo find_cookie
      offers_forward_tsn lists_forward_tsn init_ack init_ack_params set_supported_extensions
      before_initial_tsn cookie_or enqueue server2 server3 client3 client4 handle_cookie_ack
      complete
  fourth_read =
      read_one buf now cookie client3 client4 (outbound_packet server2 cookie_ack) cookie_ack []
        refl refl refl refl

  round_one :
      Init.check (first_init (new_internal client tsn_c tag_c cells)) ≡ ok tt
      → Init.check answer ≡ ok tt
      → round buf now cookie n0 ≡ record { client = handle_chunk_end client2; server = server2 }
  unfolding round n0 start new new_internal send_init first_init set_state awake_write_loop
      outbound_packet first_packet handle_chunk_start handle_chunk_end handle_init accept_init as_u8
      client1 server1 server2 drain_control_queue enqueue
  round_one h g =
      ap
        (λ x. record {
          client = hand_over buf now cookie client1 x.control_queue;
          server = (drain_control_queue x).1;
        })
        (first_round h)
      ∙ ap (λ y. record { client = y; server = server2 }) (second_read g)

  end_network : Network
  unfolding client4 server3
  end_network = record {
    client = handle_chunk_end client4;
    server =
        (drain_control_queue
          (handle_chunk_end (enqueue server3 (outbound_packet server2 cookie_ack ∷ [])))).1;
  }

  round_two :
      round buf now cookie (record { client = handle_chunk_end client2; server = server2 })
      ≡ end_network
  unfolding end_network round n0 start new new_internal send_init first_init set_state
      awake_write_loop outbound_packet first_packet handle_chunk_start handle_chunk_end handle_init
      accept_init as_u8 client1 server1 server2 drain_control_queue enqueue client2 client3 echo
      server3 handle_init_ack echo_cookie send_cookie_echo find_cookie offers_forward_tsn
      lists_forward_tsn init_ack init_ack_params set_supported_extensions before_initial_tsn
      cookie_or answer complete
  round_two =
      ap
        (λ x. record {
          client = hand_over buf now cookie client3 x.control_queue;
          server = (drain_control_queue x).1;
        })
        third_read
      ∙ ap
          (λ y. record {
            client = y;
            server =
                (drain_control_queue
                  (handle_chunk_end (enqueue server3 (outbound_packet server2 cookie_ack ∷ [])))).1;
          })
          fourth_read

-- Both endpoints are established, agree on tags and first TSNs, and told the application.
pub record IsConnected (n : Network) : Type 0 where
  pub states : (n.client.state ≡ established) × (n.server.state ≡ established)
  pub client_tag : n.client.peer_verification_tag ≡ n.server.my_verification_tag
  pub server_tag : n.server.peer_verification_tag ≡ n.client.my_verification_tag
  pub client_tsn : n.client.peer_last_tsn ≡ before_initial_tsn n.server.my_next_tsn
  pub server_tsn : n.server.peer_last_tsn ≡ before_initial_tsn n.client.my_next_tsn
  pub told : (n.client.handshake_completed ≡ none ∷ []) × (n.server.handshake_completed ≡ none ∷ [])
  pub forward_tsn : (n.client.use_forward_tsn ≡ true) × (n.server.use_forward_tsn ≡ true)
  pub timers_stopped : (n.client.t1init ≡ false) × (n.client.t1cookie ≡ false)
  pub nothing_stored : (n.client.stored_init ≡ none) × (n.client.stored_cookie_echo ≡ none)
  pub windows : (n.client.rwnd ≡ n.server.max_receive_buffer_size) × (n.server.rwnd ≡ 0)

roomy :
    (config : Config) (tsn tag : ℕ) (cells : Cells)
    → IsRoomy config
    → 1500 ≤ (new_internal config tsn tag cells).max_receive_buffer_size
unfolding new_internal
roomy config tsn tag cells h = ground arith

first_init_ok :
    (config : Config) (tsn tag : ℕ) (cells : Cells)
    → 0 < tag
    → IsRoomy config
    → Init.check (first_init (new_internal config tsn tag cells)) ≡ ok tt
unfolding first_init new_internal set_supported_extensions
first_init_ok config tsn tag cells h r =
    (check_iff (first_init (new_internal config tsn tag cells))).1
      (h, omega arith, omega arith, roomy config tsn tag cells r)

module _ (buf : Buf) (now : ℕ) (cookie : List ℕ) (client server : Config)
    (tsn_c tag_c tsn_s tag_s : ℕ) (cells : Cells) where
  answer_ok :
      0 < tag_s
      → IsRoomy server
      → Init.check (answer buf now cookie client server tsn_c tag_c tsn_s tag_s cells) ≡ ok tt
  unfolding n0 first_packet server1 answer start new new_internal first_init handle_init accept_init
      as_u8 handle_chunk_start init_ack init_ack_params set_supported_extensions outbound_packet
  answer_ok h r =
      (check_iff (answer buf now cookie client server tsn_c tag_c tsn_s tag_s cells)).1
        (h, omega arith, omega arith, roomy server tsn_s tag_s cells r)

  end_network-IsConnected :
      IsConnected (end_network buf now cookie client server tsn_c tag_c tsn_s tag_s cells)
  unfolding end_network n0 start new new_internal send_init first_init set_state awake_write_loop
      outbound_packet first_packet handle_chunk_start handle_chunk_end handle_init accept_init as_u8
      client1 server1 server2 drain_control_queue enqueue client2 client3 client4 echo server3
      handle_init_ack echo_cookie send_cookie_echo find_cookie offers_forward_tsn lists_forward_tsn
      init_ack init_ack_params set_supported_extensions before_initial_tsn cookie_or answer complete
  end_network-IsConnected = record {
    states = (refl, refl);
    client_tag = refl;
    server_tag = refl;
    client_tsn = refl;
    server_tsn = refl;
    told = (refl, refl);
    forward_tsn = (refl, refl);
    timers_stopped = (refl, refl);
    nothing_stored = (refl, refl);
    windows = (refl, refl);
  }

-- The handshake completes: whatever the two configurations, first TSNs and cookie, two rounds of
-- packets connect two fresh endpoints, when both tags are not zero and both windows have 1500 bytes
-- or are the default. The client knows the server's window; the server takes the client's for zero.
-- The packets are handed over as values: that INIT, INIT ACK and the cookies survive marshalling and
-- parsing is no part of it.
pub round-IsConnected :
    (buf : Buf) (now : ℕ) (cookie : List ℕ) (client server : Config) (tsn_c tag_c tsn_s tag_s : ℕ)
    (cells : Cells)
    → 0 < tag_c
    → 0 < tag_s
    → IsRoomy client
    → IsRoomy server
    → IsConnected (
        round buf now cookie
          (round buf now cookie (start client server tsn_c tag_c tsn_s tag_s cells)))
unfolding n0
round-IsConnected buf now cookie client server tsn_c tag_c tsn_s tag_s cells hc hs rc rs =
    subst IsConnected (sym both) connected
  where
    first_ok : Init.check (first_init (new_internal client tsn_c tag_c cells)) ≡ ok tt
    first_ok = first_init_ok client tsn_c tag_c cells hc rc

    both :
        round buf now cookie
          (round buf now cookie (start client server tsn_c tag_c tsn_s tag_s cells))
        ≡ end_network buf now cookie client server tsn_c tag_c tsn_s tag_s cells
    both =
        ap (round buf now cookie) (
          round_one buf now cookie client server tsn_c tag_c tsn_s tag_s cells first_ok
            (answer_ok buf now cookie client server tsn_c tag_c tsn_s tag_s cells hs rs))
        ∙ round_two buf now cookie client server tsn_c tag_c tsn_s tag_s cells

    connected : IsConnected (end_network buf now cookie client server tsn_c tag_c tsn_s tag_s cells)
    connected = end_network-IsConnected buf now cookie client server tsn_c tag_c tsn_s tag_s cells
