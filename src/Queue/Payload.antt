-- ===== src/Queue/Payload.antt =====
-- src/queue/payload_queue.rs: the queue of DATA chunks by TSN, received (`payload_queue`) or sent
-- and not yet acknowledged (`inflight_queue`). The shared counter `length` is a field here. Sums
-- of `usize` wrap at 2^64, those of `u16` at 2^16.
pub mod Order
pub mod Accounting
pub mod Gaps
use sctp.Base.{
  ℕ, ◌+◌, ◌-◌, ◌%◌, ◌^◌, Bool, true, false, not, ◌||◌, List, [], ◌∷◌, ◌++◌, Option, none, some, map,
  if◌then◌else◌, length, ltb, leb, ◌==◌, add64, sub64, add16,
}
use sctp.Base.Assoc.{lookup, contains_key, insert, remove, modify}
use sctp.Base.Sort.{sort_by}
use sctp.Chunk.PayloadData.{ChunkPayloadData, Cells, abandoned}
use sctp.Sna.{sna32lt, sna32lte}

pub record PayloadQueue : Type 0 where
  pub length_shared : ℕ
  pub chunk_map : List (ℕ × ChunkPayloadData)
  pub sorted : List ℕ
  pub dup_tsn : List ℕ
  pub n_bytes : ℕ

unfoldable pub new : PayloadQueue
new = record { length_shared = 0; chunk_map = []; sorted = []; dup_tsn = []; n_bytes = 0 }

unfoldable pub update_sorted_keys : PayloadQueue → PayloadQueue
update_sorted_keys q = record q { sorted = sort_by sna32lt q.sorted }

unfoldable pub can_push : PayloadQueue → ChunkPayloadData → ℕ → Bool
can_push q p cumulative_tsn = not (contains_key p.tsn q.chunk_map || sna32lte p.tsn cumulative_tsn)

unfoldable pub push_no_check : PayloadQueue → ChunkPayloadData → PayloadQueue
unfolding update_sorted_keys
push_no_check q p = update_sorted_keys (record q {
  n_bytes = add64 q.n_bytes (length p.user_data);
  sorted = q.sorted ++ p.tsn ∷ [];
  chunk_map = insert p.tsn p q.chunk_map;
  length_shared = add64 q.length_shared 1;
})

unfoldable pub push : PayloadQueue → ChunkPayloadData → ℕ → PayloadQueue × Bool
unfolding update_sorted_keys
push q p cumulative_tsn =
    if contains_key p.tsn q.chunk_map || sna32lte p.tsn cumulative_tsn
    then (record q { dup_tsn = q.dup_tsn ++ p.tsn ∷ [] }, false)
    else (
      update_sorted_keys (record q {
        n_bytes = add64 q.n_bytes (length p.user_data);
        sorted = q.sorted ++ p.tsn ∷ [];
        chunk_map = insert p.tsn p q.chunk_map;
        length_shared = add64 q.length_shared 1;
      }),
      true,
    )

-- The front of `sorted` is removed also when the map has no chunk for it.
unfoldable pub pop : PayloadQueue → ℕ → Option ChunkPayloadData × PayloadQueue
pop q tsn = elim q.sorted [
  | [] ↦ (none, q)
  | t ∷ ts ↦
      if tsn == t
      then elim (lookup tsn q.chunk_map) [
        | none ↦ (none, record q { sorted = ts })
        | some c ↦ (
          some c,
          record q {
            sorted = ts;
            chunk_map = remove tsn q.chunk_map;
            length_shared = sub64 q.length_shared 1;
            n_bytes = sub64 q.n_bytes (length c.user_data);
          },
        )
      ]
      else (none, q)
]

unfoldable pub get : PayloadQueue → ℕ → Option ChunkPayloadData
get q tsn = lookup tsn q.chunk_map

-- `get_mut` and an update of the chunk in place.
unfoldable pub get_mut : PayloadQueue → ℕ → (ChunkPayloadData → ChunkPayloadData) → PayloadQueue
get_mut q tsn f = record q { chunk_map = modify tsn f q.chunk_map }

unfoldable pub pop_duplicates : PayloadQueue → List ℕ × PayloadQueue
pop_duplicates q = (q.dup_tsn, record q { dup_tsn = [] })

unfoldable pub acked_chunk : ChunkPayloadData → ChunkPayloadData
acked_chunk c = record c { acked = true; retransmit = false; user_data = [] }

unfoldable pub mark_as_acked : PayloadQueue → ℕ → ℕ × PayloadQueue
unfolding acked_chunk
mark_as_acked q tsn = elim (lookup tsn q.chunk_map) [
  | none ↦ (0, q)
  | some c ↦ (
    length c.user_data,
    record q {
      chunk_map = modify tsn acked_chunk q.chunk_map;
      n_bytes = sub64 q.n_bytes (length c.user_data);
    },
  )
]

unfoldable pub get_last_tsn_received : PayloadQueue → Option ℕ
get_last_tsn_received q = last q.sorted
  where
    last : List ℕ → Option ℕ
    last [] = none
    last (t ∷ ts) = elim (last ts) [ none ↦ some t | some u ↦ some u ]

unfoldable pub mark_to_retransmit : Cells → ℕ × ChunkPayloadData → ℕ × ChunkPayloadData
mark_to_retransmit cells (k, c) =
    if c.acked || abandoned cells c then (k, c) else (k, record c { retransmit = true })

unfoldable pub mark_all_to_retrasmit : Cells → PayloadQueue → PayloadQueue
unfolding mark_to_retransmit
mark_all_to_retrasmit cells q = record q { chunk_map = map (mark_to_retransmit cells) q.chunk_map }

unfoldable pub get_num_bytes : PayloadQueue → ℕ
get_num_bytes q = q.n_bytes

-- `len` asserts that the shared counter agrees with the map; `Accounting` shows that it does.
unfoldable pub len : PayloadQueue → ℕ
len q = length q.chunk_map

unfoldable pub is_empty : PayloadQueue → Bool
unfolding len
is_empty q = len q == 0

pub record GapAckBlock : Type 0 where
  pub start : ℕ
  pub finish : ℕ

-- The offset of a TSN from the cumulative one, as the loop computes it.
unfoldable pub gap_diff : ℕ → ℕ → ℕ
gap_diff cumulative_tsn tsn = if leb cumulative_tsn tsn then (tsn - cumulative_tsn) % 2 ^ 16 else 0

-- The rounds of the loop after the first, with the block under way.
unfoldable pub gap_loop : ℕ → GapAckBlock → List ℕ → List GapAckBlock
unfolding gap_diff
gap_loop cumulative_tsn b [] = b ∷ []
gap_loop cumulative_tsn b (tsn ∷ ts) =
    let diff = gap_diff cumulative_tsn tsn in
    elim (add16 b.finish 1 == diff) [
      | true ↦ gap_loop cumulative_tsn (record b { finish = add16 b.finish 1 }) ts
      | false ↦ b ∷ gap_loop cumulative_tsn (record { start = diff; finish = diff }) ts
    ]

unfoldable pub get_gap_ack_blocks : PayloadQueue → ℕ → List GapAckBlock
unfolding gap_loop
get_gap_ack_blocks q cumulative_tsn = elim q.chunk_map [
  | [] ↦ []
  | _ ∷ _ ↦ elim q.sorted [
    | [] ↦ record { start = 0; finish = 0 } ∷ []
    | tsn ∷ ts ↦
        let diff = gap_diff cumulative_tsn tsn in
        gap_loop cumulative_tsn (record { start = diff; finish = diff }) ts
  ]
]
