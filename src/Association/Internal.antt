-- ===== src/Association/Internal.antt =====
-- `AssociationInternal` of src/association/association_internal.rs: the fields that the modelled
-- handlers read and write. A retransmission timer is whether it runs; `awakened` is set where the
-- source wakes the write loop; `measured_rtts` are the values given to `set_new_rtt`, oldest first.
-- `ack_timer` is the timer of timer/ack_timer.rs, `accept_room` how many streams the accept channel
-- still takes, `unregistered` the streams that only the application still holds, and
-- `handshake_completed` what the handshake's channel was sent.
use sctp.Base.{ℕ, Bool, true, false, List, [], ◌∷◌, Option}
use sctp.Error.{Error, Result, ok, err, panicked}
use sctp.Chunk.Init.{ChunkInit}
use sctp.Chunk.Control.{ChunkCookieEcho}
use sctp.Chunk.Reconfig.{ChunkReconfig}
use sctp.Packet.{Packet, Chunk}
use sctp.Timer.Ack.{AckTimer}
use sctp.Association.State.{AssociationState}
use sctp.Chunk.PayloadData.{Cells}
pub use sctp.Param.Values.{ParamOutgoingResetRequest}
pub use sctp.Chunk.SelectiveAck.{ChunkSelectiveAck}
pub use sctp.Chunk.ForwardTsn.{ChunkForwardTsn, ChunkForwardTsnStream}
use sctp.Queue.Payload.{PayloadQueue}
use sctp.Queue.Pending.{PendingQueue}
use sctp.Stream.{Stream}

pub data AckMode : Type 0 where
  normal no_delay always_delay : AckMode

pub data AckState : Type 0 where
  idle immediate delay : AckState

abbrev pub is_idle : AckState → Bool
is_idle idle = true
is_idle _ = false

abbrev pub is_immediate : AckState → Bool
is_immediate immediate = true
is_immediate _ = false

abbrev pub is_normal : AckMode → Bool
is_normal normal = true
is_normal _ = false

abbrev pub is_always_delay : AckMode → Bool
is_always_delay always_delay = true
is_always_delay _ = false

pub record Association : Type 0 where
  pub state : AssociationState
  pub my_next_tsn : ℕ
  pub peer_last_tsn : ℕ
  pub min_tsn2measure_rtt : ℕ
  pub will_send_forward_tsn : Bool
  pub will_retransmit_fast : Bool
  pub will_retransmit_reconfig : Bool
  pub will_send_shutdown : Bool
  pub will_send_shutdown_ack : Bool
  pub will_send_shutdown_complete : Bool
  pub reconfig_requests : List (ℕ × ParamOutgoingResetRequest)
  pub payload_queue : PayloadQueue
  pub inflight_queue : PayloadQueue
  pub pending_queue : PendingQueue
  pub cells : Cells
  pub mtu : ℕ
  pub max_payload_size : ℕ
  pub cumulative_tsn_ack_point : ℕ
  pub advanced_peer_tsn_ack_point : ℕ
  pub use_forward_tsn : Bool
  pub max_receive_buffer_size : ℕ
  pub cwnd : ℕ
  pub rwnd : ℕ
  pub ssthresh : ℕ
  pub partial_bytes_acked : ℕ
  pub in_fast_recovery : Bool
  pub fast_recover_exit_point : ℕ
  pub t1init : Bool
  pub t1cookie : Bool
  pub t2shutdown : Bool
  pub t3rtx : Bool
  pub treconfig : Bool
  pub ack_timer : AckTimer
  pub streams : List (ℕ × Stream)
  pub unregistered : List Stream
  pub accept_room : ℕ
  pub delayed_ack_triggered : Bool
  pub immediate_ack_triggered : Bool
  pub ack_state : AckState
  pub ack_mode : AckMode
  pub peer_verification_tag : ℕ
  pub my_verification_tag : ℕ
  pub my_next_rsn : ℕ
  pub my_max_num_inbound_streams : ℕ
  pub my_max_num_outbound_streams : ℕ
  pub my_cookie : Option (List ℕ)
  pub source_port : ℕ
  pub destination_port : ℕ
  pub max_message_size : ℕ
  pub stored_init : Option ChunkInit
  pub stored_cookie_echo : Option ChunkCookieEcho
  pub control_queue : List Packet
  pub reconfigs : List (ℕ × ChunkReconfig)
  pub handshake_completed : List (Option Error)
  pub awakened : Bool
  pub measured_rtts : List ℕ

unfoldable pub set_state : Association → AssociationState → Association
set_state a new_state = record a { state = new_state }

unfoldable pub awake_write_loop : Association → Association
awake_write_loop a = record a { awakened = true }

-- A packet to the peer, of one chunk.
unfoldable pub outbound_packet : Association → Chunk → Packet
outbound_packet a c = record {
  source_port = a.source_port;
  destination_port = a.destination_port;
  verification_tag = a.peer_verification_tag;
  chunks = c ∷ [];
}

-- `?` on the outcome of a handler: the next step runs on the state it left, unless it failed.
abbrev pub after {ℓ κ} :
    {V : Type ℓ} {W : Type κ}
    → Association × Result V
    → (Association → V → Association × Result W)
    → Association × Result W
after (a, ok v) f = f a v
after (a, err e) f = (a, err e)
after (a, panicked) f = (a, panicked)
