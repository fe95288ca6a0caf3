-- ===== src/Examples/Handshake.antt =====
-- The properties of the handshake and of the timers, at concrete inputs.
use sctp.Base.{
  ◌*◌, ◌^◌, min, ◌+◌, ◌≡◌, ◌≢◌, refl, inl, inr, true, false, [], ◌∷◌, ◌++◌, some, arith,
}
use sctp.Error.{ok, err, err_handle_init_state}
use sctp.Bytes.BigEndian.{big_endian}
use sctp.Chunk.Init.{ChunkInit}
use sctp.Chunk.Control.{ChunkCookieEcho}
use sctp.Param.Values.{unknown_param, state_cookie_param, supported_extensions}
use sctp.Packet.{Packet, init, cookie_ack}
use sctp.Association.State.{cookie_wait, established}
use sctp.Association.Internal.{Association, outbound_packet}
use sctp.Association.Create.{Config}
use sctp.Association.Handshake.{handle_cookie_echo, handle_init, cookie_or}
use sctp.Association.Handshake.Cookie.{
  is_opening, handle_cookie_echo-authentic, handle_init-answers,
}
use sctp.Association.Inbound.Network.{round}
use sctp.Association.Inbound.Network.Connect.{start, IsConnected, round-IsConnected}
use sctp.Timer.Ack as Ack
use sctp.Timer.Ack.{AckTimer, Unstopped, same, started, expired, expire-IsSpent}
use sctp.Timer.Rtx as Rtx
use sctp.Timer.Rtx.{
  RtxTimer, on_retransmission_failure, expire_times, timeouts, expire_times-fails,
  calculate_next_timeout_doubles,
}
use sctp.Timer.Rto.{rto_max, calculate_next_timeout}
use sctp.Examples.{association}

abbrev pub default_config : Config
default_config = record { max_receive_buffer_size = 0; max_message_size = 0 }

abbrev pub small_config : Config
small_config = record { max_receive_buffer_size = 1500; max_message_size = 100 }

round-IsConnected_example : IsConnected (
    round big_endian 1 (1 ∷ 2 ∷ []) (
      round big_endian 1
        (1 ∷ 2 ∷ [])
        (start default_config small_config 0 4 4294967295 6 (λ _. false))))
round-IsConnected_example =
    round-IsConnected big_endian 1 (1 ∷ 2 ∷ []) default_config small_config 0 4 4294967295 6
      (λ _. false) (omega arith) (omega arith) (inl refl) (inr (omega arith))

abbrev opening : Association
opening = record association { state = cookie_wait; my_cookie = some (1 ∷ 2 ∷ []) }

abbrev echo : ChunkCookieEcho
echo = record { cookie = 1 ∷ 2 ∷ [] }

handle_cookie_echo-authentic_example :
    (opening.my_cookie ≢ some echo.cookie → handle_cookie_echo opening echo ≡ (opening, []))
    × (opening.my_cookie ≡ some echo.cookie
        → is_opening opening.state ≡ true
        → ((handle_cookie_echo opening echo).0.state ≡ established)
          × ((handle_cookie_echo opening echo).1 ≡ outbound_packet opening cookie_ack ∷ []))
handle_cookie_echo-authentic_example = handle_cookie_echo-authentic opening echo

-- An INIT with a parameter that has to be reported.
abbrev first_chunk : ChunkInit
first_chunk = record {
  is_ack = false;
  initiate_tag = 5;
  advertised_receiver_window_credit = 2000;
  num_outbound_streams = 10;
  num_inbound_streams = 10;
  initial_tsn = 0;
  params = unknown_param 49153 (1 ∷ []) ∷ [];
}

abbrev first_packet : Packet
first_packet = record {
  source_port = 5001;
  destination_port = 5000;
  verification_tag = 0;
  chunks = init first_chunk ∷ [];
}

handle_init-answers_example :
    (is_opening opening.state ≡ true
      → (c : ChunkInit) × ((handle_init opening first_packet first_chunk []).1
          ≡ ok (outbound_packet (handle_init opening first_packet first_chunk []).0 (init c) ∷ []))
        × (c.is_ack ≡ true)
        × (c.params
            ≡ state_cookie_param (cookie_or [] opening.my_cookie)
              ∷ supported_extensions (130 ∷ 192 ∷ [])
              ∷ [])
        × ((handle_init opening first_packet first_chunk []).0.peer_verification_tag ≡ 5)
        × ((handle_init opening first_packet first_chunk []).0.my_cookie
            ≡ some (cookie_or [] opening.my_cookie))
        × ((handle_init opening first_packet first_chunk []).0.state ≡ opening.state))
    × (is_opening opening.state ≡ false
        → handle_init opening first_packet first_chunk [] ≡ (opening, err err_handle_init_state))
handle_init-answers_example = handle_init-answers opening first_packet first_chunk []

abbrev waiting : AckTimer
waiting = record { close_tx = true; has_task = true }

expire-IsSpent_example :
    ((Ack.start (Ack.expire waiting)).1.has_task ≡ false)
    × ((Ack.start (Ack.start (Ack.expire waiting)).1).0 ≡ false)
expire-IsSpent_example =
    expire-IsSpent waiting (Ack.start (Ack.expire waiting)).1 refl (started same)

abbrev idle_timer : RtxTimer
idle_timer = record { max_retrans = 2; close_tx = false; rto = 0; n_rtos = 0 }

expire_times-fails_example :
    ((expire_times (2 + (1 + 3)) (Rtx.start idle_timer 1000).1).0
      ≡ timeouts 0 2 ++ (on_retransmission_failure ∷ []))
    × ((expire_times (2 + (1 + 3)) (Rtx.start idle_timer 1000).1).1.close_tx ≡ false)
expire_times-fails_example = expire_times-fails idle_timer 1000 3 refl (omega arith)

calculate_next_timeout_doubles_example :
    (calculate_next_timeout 3000 0 ≡ 3000)
    × (calculate_next_timeout 3000 5 ≡ min (2 * calculate_next_timeout 3000 4) rto_max)
    × (calculate_next_timeout 3000 4 ≡ min (3000 * 2 ^ 4) rto_max)
calculate_next_timeout_doubles_example =
    calculate_next_timeout_doubles 3000 4 (omega arith) (omega arith)
