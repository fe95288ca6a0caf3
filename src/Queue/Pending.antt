-- ===== src/Queue/Pending.antt =====
-- src/queue/pending_queue.rs: the chunks that wait to be sent. The two queues and the four atomic
-- fields are one state: each method runs under the association's lock, but for `push`, which the
-- model takes as one step too.
pub mod Accounting
pub mod Order
pub mod Push
use sctp.Base.{
  ℕ, Bool, true, false, not, List, [], ◌∷◌, ◌++◌, Option, none, some, if◌then◌else◌, length, head?,
  tail, add64, sub64, ◌==◌,
}
use sctp.Chunk.PayloadData.{ChunkPayloadData}

pub record PendingQueue : Type 0 where
  pub unordered_queue : List ChunkPayloadData
  pub ordered_queue : List ChunkPayloadData
  pub queue_len : ℕ
  pub n_bytes : ℕ
  pub selected : Bool
  pub unordered_is_selected : Bool

unfoldable pub new : PendingQueue
new = record {
  unordered_queue = [];
  ordered_queue = [];
  queue_len = 0;
  n_bytes = 0;
  selected = false;
  unordered_is_selected = false;
}

unfoldable pub push : PendingQueue → ChunkPayloadData → PendingQueue
push q c =
    let q' = record q {
      n_bytes = add64 q.n_bytes (length c.user_data);
      queue_len = add64 q.queue_len 1;
    } in
    if c.unordered
    then record q' { unordered_queue = q.unordered_queue ++ c ∷ [] }
    else record q' { ordered_queue = q.ordered_queue ++ c ∷ [] }

-- The loop `for c in chunks { self.pending_queue.push(c).await }`, with no other sender between.
unfoldable pub push_all : PendingQueue → List ChunkPayloadData → PendingQueue
unfolding push
push_all q [] = q
push_all q (c ∷ cs) = push_all (push q c) cs

unfoldable pub peek : PendingQueue → Option ChunkPayloadData
peek q =
    if q.selected
    then if q.unordered_is_selected then head? q.unordered_queue else head? q.ordered_queue
    else elim (head? q.unordered_queue) [ some c ↦ some c | none ↦ head? q.ordered_queue ]

-- `pop_front` of one of the two queues.
unfoldable pub pop_front : PendingQueue → Bool → Option ChunkPayloadData × PendingQueue
pop_front q from_unordered =
    if from_unordered
    then (head? q.unordered_queue, record q { unordered_queue = tail q.unordered_queue })
    else (head? q.ordered_queue, record q { ordered_queue = tail q.ordered_queue })

-- A message is under way: the fragments come from its queue, and its last one ends the selection.
unfoldable pub pop_selected : PendingQueue → Option ChunkPayloadData × PendingQueue
unfolding pop_front
pop_selected q =
    let (popped, q') = pop_front q q.unordered_is_selected in
    elim popped [
      | none ↦ (none, q')
      | some p ↦ (some p, if p.ending_fragment then record q' { selected = false } else q')
    ]

-- No message is under way: a first fragment that is not the last one selects its queue.
unfoldable pub pop_unselected : PendingQueue → Bool → Option ChunkPayloadData × PendingQueue
unfolding pop_front
pop_unselected q unordered =
    let (popped, q') = pop_front q unordered in
    elim popped [
      | none ↦ (none, q')
      | some p ↦ (
        some p,
        if p.ending_fragment
            then q'
            else record q' { selected = true; unordered_is_selected = unordered },
      )
    ]

-- The counters after a pop.
unfoldable pub count_popped :
    Option ChunkPayloadData × PendingQueue → Option ChunkPayloadData × PendingQueue
count_popped (none, q) = (none, q)
count_popped (some p, q) = (
  some p,
  record q { n_bytes = sub64 q.n_bytes (length p.user_data); queue_len = sub64 q.queue_len 1 },
)

unfoldable pub pop : PendingQueue → Bool → Bool → Option ChunkPayloadData × PendingQueue
unfolding pop_selected pop_unselected count_popped
pop q beginning_fragment unordered =
    if q.selected
    then count_popped (pop_selected q)
    else if beginning_fragment
    then count_popped (pop_unselected q unordered)
    else (none, q)

unfoldable pub get_num_bytes : PendingQueue → ℕ
get_num_bytes q = q.n_bytes

unfoldable pub len : PendingQueue → ℕ
len q = q.queue_len

unfoldable pub is_empty : PendingQueue → Bool
unfolding len
is_empty q = len q == 0
