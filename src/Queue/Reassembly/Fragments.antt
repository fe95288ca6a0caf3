-- ===== src/Queue/Reassembly/Fragments.antt =====
-- The chunk sets of src/queue/reassembly_queue.rs: the fragments that share a stream sequence
-- number, in TSN order.
use sctp.Base.{ℕ, Bool, true, false, ◌&&◌, ◌||◌, List, [], ◌∷◌, ◌++◌, if◌then◌else◌, ◌==◌, add32}
use sctp.Base.Sort.{sort_by}
use sctp.Chunk.PayloadData.{ChunkPayloadData, PayloadProtocolIdentifier}
use sctp.Sna.{sna32lt}

unfoldable pub less_by_tsn : ChunkPayloadData → ChunkPayloadData → Bool
less_by_tsn a b = sna32lt a.tsn b.tsn

unfoldable pub sort_chunks_by_tsn : List ChunkPayloadData → List ChunkPayloadData
sort_chunks_by_tsn c = sort_by less_by_tsn c

pub record ChunkSet : Type 0 where
  pub ssn : ℕ
  pub ppi : PayloadProtocolIdentifier
  pub chunks : List ChunkPayloadData

unfoldable pub new_set : ℕ → PayloadProtocolIdentifier → ChunkSet
new_set ssn ppi = record { ssn = ssn; ppi = ppi; chunks = [] }

-- `chunks[n_chunks - 1].ending_fragment`, where `c` is the chunk before the rest.
unfoldable pub last_ends : ChunkPayloadData → List ChunkPayloadData → Bool
last_ends c [] = c.ending_fragment
last_ends c (d ∷ ds) = last_ends d ds

-- The loop of check 3 after its first round.
unfoldable pub contiguous : ℕ → List ChunkPayloadData → Bool
contiguous last_tsn [] = true
contiguous last_tsn (c ∷ cs) = (c.tsn == add32 last_tsn 1) && contiguous c.tsn cs

unfoldable pub is_complete : ChunkSet → Bool
unfolding last_ends contiguous
is_complete s = elim s.chunks [
  | [] ↦ false
  | c ∷ cs ↦ c.beginning_fragment && last_ends c cs && contiguous c.tsn cs
]

-- The check for a duplicate.
unfoldable pub has_tsn : ℕ → List ChunkPayloadData → Bool
has_tsn tsn [] = false
has_tsn tsn (c ∷ cs) = c.tsn == tsn || has_tsn tsn cs

unfoldable pub push_chunk : ChunkSet → ChunkPayloadData → ChunkSet × Bool
unfolding has_tsn sort_chunks_by_tsn
push_chunk s chunk =
    let s' = record s { chunks = sort_chunks_by_tsn (s.chunks ++ chunk ∷ []) } in
    if has_tsn chunk.tsn s.chunks then (s, false) else (s', is_complete s')
