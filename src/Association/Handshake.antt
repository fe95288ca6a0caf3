-- ===== src/Association/Handshake.antt =====
-- src/association/association_internal.rs: the handlers of the handshake. A handler returns the
-- packets to send. `fresh_cookie` is what the `rand` crate fills the cookie with.
pub mod Cookie
use sctp.Base.{
  ℕ, ◌+◌, ◌-◌, ◌/◌, ◌%◌, ◌^◌, Bool, true, false, not, ◌&&◌, ◌||◌, List, [], ◌∷◌, ◌++◌, Option, none,
  some, if◌then◌else◌, ◌==◌, min,
}
use sctp.Error.{
  Result, ok, err, panicked, err_handle_init_state, err_init_ack_no_cookie,
  err_cookie_echo_not_stored_to_send,
}
use sctp.Param.Kind.{ParamType, unknown_type}
use sctp.Param.Values.{
  Param, supported_extensions, state_cookie_param, heartbeat_info_param, unrecognized, typ_of,
}
use sctp.Chunk.Header.{ct_forward_tsn}
use sctp.Chunk.Init.{ChunkInit, set_supported_extensions}
use sctp.Chunk.Control.{ChunkCookieEcho}
use sctp.Packet.{Packet, init, cookie_echo, cookie_ack, heartbeat_ack}
use sctp.Association.State.{
  AssociationState, closed, cookie_wait, cookie_echoed, established, same_state,
}
use sctp.Association.Internal.{Association, set_state, awake_write_loop, outbound_packet, after}

unfoldable pub send_cookie_echo : Association → Association × Result (Unit {0})
unfolding awake_write_loop outbound_packet
send_cookie_echo a = elim a.stored_cookie_echo [
  | none ↦ (a, err err_cookie_echo_not_stored_to_send)
  | some stored_cookie_echo ↦ (
    awake_write_loop (record a {
      control_queue = a.control_queue ++ (outbound_packet a (cookie_echo stored_cookie_echo) ∷ []);
    }),
    ok tt,
  )
]

unfoldable pub lists_forward_tsn : List ℕ → Bool
lists_forward_tsn [] = false
lists_forward_tsn (t ∷ types) = t == ct_forward_tsn || lists_forward_tsn types

-- The loop over the parameters: whether the peer lists FORWARD-TSN among its extensions.
unfoldable pub offers_forward_tsn : List Param → Bool
unfolding lists_forward_tsn
offers_forward_tsn [] = false
offers_forward_tsn (supported_extensions chunk_types ∷ params) =
    lists_forward_tsn chunk_types || offers_forward_tsn params
offers_forward_tsn (p ∷ params) = offers_forward_tsn params

-- The loop over the parameters: the last cookie wins.
unfoldable pub find_cookie : Option (List ℕ) → List Param → Option (List ℕ)
find_cookie found [] = found
find_cookie found (state_cookie_param cookie ∷ params) = find_cookie (some cookie) params
find_cookie found (p ∷ params) = find_cookie found params

unfoldable pub needs_to_be_reported : Param → Bool
unfolding typ_of
needs_to_be_reported p = elim (typ_of p) [
  | unknown_type param_type ↦ param_type / 2 ^ 14 % 2 == 1
  | _ ↦ false
]

unfoldable pub unrecognized_params : List Param → List Param
unfolding needs_to_be_reported
unrecognized_params [] = []
unrecognized_params (p ∷ params) =
    if needs_to_be_reported p
    then unrecognized p ∷ unrecognized_params params
    else unrecognized_params params

-- The TSN before the peer's first.
unfoldable pub before_initial_tsn : ℕ → ℕ
before_initial_tsn initial_tsn = if initial_tsn == 0 then 2 ^ 32 - 1 else initial_tsn - 1

unfoldable pub cookie_or : List ℕ → Option (List ℕ) → List ℕ
cookie_or fresh_cookie none = fresh_cookie
cookie_or fresh_cookie (some cookie) = cookie

-- The INIT ACK chunk as `handle_init` first builds it, and with the parameters that it then sets.
unfoldable pub init_ack : Association → ChunkInit → ChunkInit
unfolding unrecognized_params
init_ack a i = record {
  is_ack = true;
  initiate_tag = a.my_verification_tag;
  advertised_receiver_window_credit = a.max_receive_buffer_size;
  num_outbound_streams = a.my_max_num_outbound_streams;
  num_inbound_streams = a.my_max_num_inbound_streams;
  initial_tsn = a.my_next_tsn;
  params = unrecognized_params i.params;
}

unfoldable pub init_ack_params : Association → ChunkInit → ChunkInit
init_ack_params a c = elim a.my_cookie [
  | none ↦ c
  | some my_cookie ↦ record c { params = state_cookie_param my_cookie ∷ [] }
]

-- `handle_init` after its test of the state.
unfoldable pub accept_init :
    Association → Packet → ChunkInit → (fresh_cookie : List ℕ) → Association × Result (List Packet)
unfolding before_initial_tsn offers_forward_tsn init_ack init_ack_params cookie_or
    set_supported_extensions outbound_packet
accept_init a p i fresh_cookie =
    let a = record a {
      my_max_num_inbound_streams = min i.num_inbound_streams a.my_max_num_inbound_streams;
      my_max_num_outbound_streams = min i.num_outbound_streams a.my_max_num_outbound_streams;
      peer_verification_tag = i.initiate_tag;
      source_port = p.destination_port;
      destination_port = p.source_port;
      peer_last_tsn = before_initial_tsn i.initial_tsn;
      use_forward_tsn = a.use_forward_tsn || offers_forward_tsn i.params;
    } in
    let a = record a { my_cookie = some (cookie_or fresh_cookie a.my_cookie) } in
    (
      a,
      ok (
          outbound_packet a (init (set_supported_extensions (init_ack_params a (init_ack a i))))
          ∷ []),
    )

unfoldable pub handle_init :
    Association → Packet → ChunkInit → (fresh_cookie : List ℕ) → Association × Result (List Packet)
unfolding accept_init
handle_init a p i fresh_cookie =
    if not (same_state a.state closed)
      && not (same_state a.state cookie_wait)
      && not (same_state a.state cookie_echoed)
    then (a, err err_handle_init_state)
    else accept_init a p i fresh_cookie

-- The last steps of `handle_init_ack`, once the cookie is looked for.
unfoldable pub echo_cookie : Association → Option (List ℕ) → Association × Result (List Packet)
unfolding send_cookie_echo set_state
echo_cookie a none = (a, err err_init_ack_no_cookie)
echo_cookie a (some cookie) =
    after (send_cookie_echo (record a { stored_cookie_echo = some (record { cookie = cookie }) }))
      (λ a _. (set_state (record a { t1cookie = true }) cookie_echoed, ok []))

unfoldable pub handle_init_ack :
    Association → Packet → ChunkInit → Association × Result (List Packet)
unfolding before_initial_tsn offers_forward_tsn find_cookie echo_cookie
handle_init_ack a p i =
    if not (same_state a.state cookie_wait)
    then (a, ok [])
    else (let a = record a {
      my_max_num_inbound_streams = min i.num_inbound_streams a.my_max_num_inbound_streams;
      my_max_num_outbound_streams = min i.num_outbound_streams a.my_max_num_outbound_streams;
      peer_verification_tag = i.initiate_tag;
      peer_last_tsn = before_initial_tsn i.initial_tsn;
    } in
        if not (a.source_port == p.destination_port) || not (a.destination_port == p.source_port)
        then (a, ok [])
        else echo_cookie
            (record a {
              rwnd = i.advertised_receiver_window_credit;
              ssthresh = i.advertised_receiver_window_credit;
              t1init = false;
              stored_init = none;
              use_forward_tsn = a.use_forward_tsn || offers_forward_tsn i.params;
            })
            (find_cookie none i.params))

unfoldable pub handle_heartbeat : Association → List Param → List Packet
unfolding outbound_packet
handle_heartbeat a (heartbeat_info_param heartbeat_information ∷ params) =
    outbound_packet a (heartbeat_ack (heartbeat_info_param heartbeat_information ∷ [])) ∷ []
handle_heartbeat a params = []

unfoldable pub same_bytes : List ℕ → List ℕ → Bool
same_bytes [] [] = true
same_bytes (a ∷ as') (b ∷ bs) = a == b && same_bytes as' bs
same_bytes _ _ = false

-- What completes the handshake: the timers stop, what they would resend is dropped, and the
-- application is told.
unfoldable pub complete : Association → Association
unfolding set_state
complete a =
    set_state
      (record a {
        stored_cookie_echo = none;
        t1cookie = false;
        handshake_completed = a.handshake_completed ++ (none ∷ []);
      })
      established

-- The body of `handle_cookie_echo`, at the endpoint's own cookie.
unfoldable pub match_cookie :
    Association → ChunkCookieEcho → Option (List ℕ) → Association × List Packet
unfolding same_bytes complete outbound_packet
match_cookie a c none = (a, [])
match_cookie a c (some my_cookie) =
    if same_state a.state established
    then (if not (same_bytes my_cookie c.cookie)
        then (a, [])
        else (a, outbound_packet a cookie_ack ∷ []))
    else if same_state a.state closed
        || same_state a.state cookie_wait
        || same_state a.state cookie_echoed
    then (if not (same_bytes my_cookie c.cookie) then (a, []) else (
      complete (record a { t1init = false; stored_init = none }),
      outbound_packet a cookie_ack ∷ [],
    ))
    else (a, [])

unfoldable pub handle_cookie_echo : Association → ChunkCookieEcho → Association × List Packet
unfolding match_cookie
handle_cookie_echo a c = match_cookie a c a.my_cookie

unfoldable pub handle_cookie_ack : Association → Association × List Packet
unfolding complete
handle_cookie_ack a = if not (same_state a.state cookie_echoed) then (a, []) else (complete a, [])
