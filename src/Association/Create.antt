-- ===== src/Association/Create.antt =====
-- src/association/mod.rs: the constants and `Association::new`; src/association/association_internal.rs:
-- `AssociationInternal::new` and `send_init`. The random numbers are arguments. A retransmission
-- timer is whether it runs, the acknowledgement timer the record of timer/ack_timer.rs. The two
-- loops that `new` spawns are not part of the state.
use sctp.Base.{
  ℕ, ◌+◌, ◌-◌, ◌*◌, Bool, true, false, [], ◌∷◌, ◌++◌, none, some, if◌then◌else◌, ◌==◌, min, max,
}
use sctp.Error.{Result, ok, err, err_init_not_stored_to_send}
use sctp.Chunk.PayloadData.{Cells}
use sctp.Chunk.Init.{ChunkInit, set_supported_extensions}
use sctp.Packet.{init}
use sctp.Queue.Payload as Payload
use sctp.Queue.Pending as Pending
use sctp.Timer.Ack as Ack
use sctp.Association.Send.{common_header_size, data_chunk_header_size}
use sctp.Association.State.{closed, cookie_wait}
use sctp.Association.Internal.{
  Association, idle, normal, set_state, awake_write_loop, outbound_packet, after,
}

abbrev pub initial_mtu : ℕ
initial_mtu = 1228

abbrev pub initial_recv_buf_size : ℕ
initial_recv_buf_size = 1024 * 1024

abbrev pub default_max_message_size : ℕ
default_max_message_size = 65536

abbrev pub accept_ch_size : ℕ
accept_ch_size = 16

-- The numbers of the configuration.
pub record Config : Type 0 where
  pub max_receive_buffer_size : ℕ
  pub max_message_size : ℕ

-- `AssociationInternal::new`, with its two random numbers.
unfoldable pub new_internal : Config → (random_tsn random_tag : ℕ) → Cells → Association
unfolding Payload.new Pending.new
new_internal config random_tsn random_tag cells =
    let tsn = if random_tsn == 0 then 1 else random_tsn in
    record {
      state = closed;
      my_next_tsn = tsn;
      peer_last_tsn = 0;
      min_tsn2measure_rtt = tsn;
      will_send_forward_tsn = false;
      will_retransmit_fast = false;
      will_retransmit_reconfig = false;
      will_send_shutdown = false;
      will_send_shutdown_ack = false;
      will_send_shutdown_complete = false;
      reconfig_requests = [];
      payload_queue = Payload.new;
      inflight_queue = Payload.new;
      pending_queue = Pending.new;
      cells = cells;
      mtu = initial_mtu;
      max_payload_size = initial_mtu - (common_header_size + data_chunk_header_size);
      cumulative_tsn_ack_point = tsn - 1;
      advanced_peer_tsn_ack_point = tsn - 1;
      use_forward_tsn = false;
      max_receive_buffer_size =
          if config.max_receive_buffer_size == 0
          then initial_recv_buf_size
          else config.max_receive_buffer_size;
      cwnd = min (4 * initial_mtu) (max (2 * initial_mtu) 4380);
      rwnd = 0;
      ssthresh = 0;
      partial_bytes_acked = 0;
      in_fast_recovery = false;
      fast_recover_exit_point = 0;
      t1init = false;
      t1cookie = false;
      t2shutdown = false;
      t3rtx = false;
      treconfig = false;
      ack_timer = Ack.new;
      streams = [];
      unregistered = [];
      accept_room = accept_ch_size;
      delayed_ack_triggered = false;
      immediate_ack_triggered = false;
      ack_state = idle;
      ack_mode = normal;
      peer_verification_tag = 0;
      my_verification_tag = random_tag;
      my_next_rsn = tsn;
      my_max_num_inbound_streams = 65535;
      my_max_num_outbound_streams = 65535;
      my_cookie = none;
      source_port = 0;
      destination_port = 0;
      max_message_size =
          if config.max_message_size == 0
          then default_max_message_size
          else config.max_message_size;
      stored_init = none;
      stored_cookie_echo = none;
      control_queue = [];
      reconfigs = [];
      handshake_completed = [];
      awakened = false;
      measured_rtts = [];
    }

unfoldable pub send_init : Association → Association × Result (Unit {0})
unfolding awake_write_loop outbound_packet
send_init a = elim a.stored_init [
  | none ↦ (a, err err_init_not_stored_to_send)
  | some stored_init ↦
      let a = record a { source_port = 5000; destination_port = 5000 } in
      (
        awake_write_loop (record a {
          control_queue = a.control_queue ++ (outbound_packet a (init stored_init) ∷ []);
        }),
        ok tt,
      )
]

-- The INIT chunk that `new` prepares.
unfoldable pub first_init : Association → ChunkInit
unfolding set_supported_extensions
first_init a = set_supported_extensions (record {
  is_ack = false;
  initiate_tag = a.my_verification_tag;
  advertised_receiver_window_credit = a.max_receive_buffer_size;
  num_outbound_streams = a.my_max_num_outbound_streams;
  num_inbound_streams = a.my_max_num_inbound_streams;
  initial_tsn = a.my_next_tsn;
  params = [];
})

-- `Association::new`: a client begins the handshake, and starts its timer once the INIT is queued.
unfoldable pub new :
    Config
    → (is_client : Bool) → (random_tsn random_tag : ℕ) → Cells
    → Association × Result (Unit {0})
unfolding new_internal first_init send_init set_state
new config is_client random_tsn random_tag cells =
    let a = new_internal config random_tsn random_tag cells in
    if is_client
    then after (send_init (record (set_state a cookie_wait) { stored_init = some (first_init a) }))
        (λ a _. (record a { t1init = true }, ok tt))
    else (a, ok tt)
