-- ===== src/Packet.antt =====
-- src/packet.rs and the checksum of src/util.rs. A chunk of the trait `Chunk` is a constructor of
-- `Chunk`, with what the type that implements it holds. `crc` is the CRC-32C of the `crc` crate.
-- A DATA chunk that is parsed gets two fresh flags, numbered from `fresh`.
pub mod Codec
pub mod Check
use sctp.Base.{ℕ, Bool, true, false, List, ◌+◌, ◌%◌, ◌^◌, length}
use sctp.Param.Values.{Param}
use sctp.Chunk.Header
use sctp.Chunk.Header.{ChunkHeader}
use sctp.Chunk.PayloadData.{ChunkPayloadData}
use sctp.Chunk.PayloadData.Codec as Data
use sctp.Chunk.SelectiveAck as Sack
use sctp.Chunk.SelectiveAck.{ChunkSelectiveAck}
use sctp.Chunk.ForwardTsn as Forward
use sctp.Chunk.ForwardTsn.{ChunkForwardTsn}
use sctp.Chunk.Init as Init
use sctp.Chunk.Init.{ChunkInit}
use sctp.Chunk.Reconfig as Reconfig
use sctp.Chunk.Reconfig.{ChunkReconfig}
use sctp.Chunk.Causes.{ErrorCause, causes_length}
use sctp.Chunk.Control.{ChunkShutdown, ChunkCookieEcho, ChunkUnknown, params_length}

pub data Chunk : Type 0 where
  init : ChunkInit → Chunk
  abort : (error_causes : List ErrorCause) → Chunk
  cookie_echo : ChunkCookieEcho → Chunk
  cookie_ack : Chunk
  heartbeat : (params : List Param) → Chunk
  heartbeat_ack : (params : List Param) → Chunk
  payload_data : ChunkPayloadData → Chunk
  sack : ChunkSelectiveAck → Chunk
  reconfig : ChunkReconfig → Chunk
  forward_tsn : ChunkForwardTsn → Chunk
  error : (error_causes : List ErrorCause) → Chunk
  shutdown : ChunkShutdown → Chunk
  shutdown_ack shutdown_complete : Chunk
  unknown : ChunkUnknown → Chunk

unfoldable pub value_length : Chunk → ℕ
unfolding causes_length params_length
value_length (init c) = Init.value_length c
value_length (abort causes) = causes_length causes
value_length (cookie_echo c) = length c.cookie
value_length cookie_ack = 0
value_length (heartbeat params) = params_length params
value_length (heartbeat_ack params) = Init.params_length params
value_length (payload_data c) = Data.value_length c
value_length (sack c) = Sack.value_length c
value_length (reconfig c) = Reconfig.value_length c
value_length (forward_tsn c) = Forward.value_length c
value_length (error causes) = causes_length causes
value_length (shutdown c) = 4
value_length shutdown_ack = 0
value_length shutdown_complete = 0
value_length (unknown c) = length c.value

pub record Packet : Type 0 where
  pub source_port : ℕ
  pub destination_port : ℕ
  pub verification_tag : ℕ
  pub chunks : List Chunk
