-- ===== src/Chunk/PayloadData.antt =====
-- src/chunk/chunk_payload_data.rs: the DATA chunk and its flags for partial reliability.
-- The two flags are cells that all fragments of one message share (an `Arc<AtomicBool>` in the
-- source): a chunk holds their addresses, and `Cells` is the store. Time is a number of
-- milliseconds.
pub mod Codec
use sctp.Base.{ℕ, Bool, true, ◌&&◌, List, ◌==◌, if◌then◌else◌}

pub data PayloadProtocolIdentifier : Type 0 where
  dcep string binary string_empty binary_empty unknown : PayloadProtocolIdentifier

-- `as u32`: `Unknown` follows `BinaryEmpty`.
unfoldable pub to_u32 : PayloadProtocolIdentifier → ℕ
to_u32 dcep = 50
to_u32 string = 51
to_u32 binary = 53
to_u32 string_empty = 56
to_u32 binary_empty = 57
to_u32 unknown = 58

unfoldable pub from_u32 : ℕ → PayloadProtocolIdentifier
from_u32 v =
    if v == 50
    then dcep
    else if v == 51
    then string
    else if v == 53
    then binary
    else if v == 56
    then string_empty
    else if v == 57
    then binary_empty
    else unknown

pub record ChunkPayloadData : Type 0 where
  pub unordered : Bool
  pub beginning_fragment : Bool
  pub ending_fragment : Bool
  pub immediate_sack : Bool
  pub tsn : ℕ
  pub stream_identifier : ℕ
  pub stream_sequence_number : ℕ
  pub payload_type : PayloadProtocolIdentifier
  pub user_data : List ℕ
  pub acked : Bool
  pub miss_indicator : ℕ
  pub since : ℕ
  pub nsent : ℕ
  pub abandoned_cell : ℕ
  pub all_inflight_cell : ℕ
  pub retransmit : Bool

-- The store of the shared flags.
abbrev pub Cells : Type 0
Cells = ℕ → Bool

unfoldable pub store : Cells → ℕ → Bool → Cells
store cells a v b = if a == b then v else cells b

unfoldable pub abandoned : Cells → ChunkPayloadData → Bool
abandoned cells c = cells c.abandoned_cell && cells c.all_inflight_cell

unfoldable pub set_abandoned : Cells → ChunkPayloadData → Bool → Cells
unfolding store
set_abandoned cells c v = store cells c.abandoned_cell v

unfoldable pub set_all_inflight : Cells → ChunkPayloadData → Cells
unfolding store
set_all_inflight cells c = if c.ending_fragment then store cells c.all_inflight_cell true else cells
