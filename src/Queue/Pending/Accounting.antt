-- ===== src/Queue/Pending/Accounting.antt =====
-- `new`, `push` and `pop` of the pending queue keep its counters at its contents.
use sctp.Base.{ℕ, ◌+◌, ◌%◌, ◌^◌, ◌≡◌, refl, Bool, List, [], ◌∷◌, arith, length, length-append}
use sctp.Base.Sort.{total, total-append}
use sctp.Chunk.PayloadData.{ChunkPayloadData}
use sctp.Queue.Pending.{PendingQueue, new, push, pop}

abbrev pub bytes : List ChunkPayloadData → ℕ
bytes = total (λ c. length c.user_data)

-- Both counters, modulo 2^64 as `usize` keeps them.
pub record IsTallied (q : PendingQueue) : Type 0 where
  pub bytes_counted : q.n_bytes ≡ (bytes q.unordered_queue + bytes q.ordered_queue) % 2 ^ 64
  pub chunks_counted : q.queue_len ≡ (length q.unordered_queue + length q.ordered_queue) % 2 ^ 64

pub new-IsTallied : IsTallied new
unfolding new
new-IsTallied = omega arith

-- `push` counts the chunk and its bytes.
pub push-IsTallied : {q : PendingQueue} (c : ChunkPayloadData) → IsTallied q → IsTallied (push q c)
unfolding push
push-IsTallied {q} c v = ground (
  arith,
  total-append (λ (d : ChunkPayloadData). length d.user_data) q.unordered_queue (c ∷ []),
  total-append (λ (d : ChunkPayloadData). length d.user_data) q.ordered_queue (c ∷ []),
  length-append q.unordered_queue (c ∷ []),
  length-append q.ordered_queue (c ∷ []),
)

-- `pop` uncounts the chunk that it returns, whichever queue that comes from, and changes no
-- counter when it returns none.
pub pop-IsTallied :
    {q : PendingQueue} (beginning unordered : Bool)
    → IsTallied q
    → IsTallied (pop q beginning unordered).1
unfolding pop
pop-IsTallied {q} beginning unordered v = go q.unordered_queue q.ordered_queue refl refl
  where
    go :
        (us os : List ChunkPayloadData)
        → q.unordered_queue ≡ us
        → q.ordered_queue ≡ os
        → IsTallied (pop q beginning unordered).1
    go [] [] e f = ground arith
    go [] (o ∷ os) e f = ground arith
    go (u ∷ us) [] e f = ground arith
    go (u ∷ us) (o ∷ os) e f = ground arith
