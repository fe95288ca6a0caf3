-- ===== src/Queue/Pending/Push.antt =====
-- Queueing one message after the other keeps the pending queue made of whole messages: the loop
-- of `send_payload_data` in src/stream/mod.rs.
use mathlib.Core.List.{append_assoc, append-nil}
use sctp.Base.{
  ◌≡◌, refl, Bool, true, false, List, [], ◌∷◌, ◌++◌, Option, none, some, arith, ◌∙◌, if◌then◌else◌,
  All, All-append, not,
}
use sctp.Chunk.PayloadData.{ChunkPayloadData}
use sctp.Queue.Pending.{PendingQueue, push, push_all}
use sctp.Queue.Pending.Order.{Messages, open_after, IsWhole}

-- The fragment that a list of fragments leaves open.
abbrev pub open_end : Option ChunkPayloadData → List ChunkPayloadData → Option ChunkPayloadData
open_end last [] = last
open_end last (c ∷ cs) = open_end (open_after c) cs

Messages-append :
    (last : Option ChunkPayloadData) (xs ys : List ChunkPayloadData)
    → Messages last xs
    → Messages (open_end last xs) ys
    → Messages last (xs ++ ys)
Messages-append last [] ys h k = k
Messages-append none (x ∷ xs) ys h k = (h.0, Messages-append (open_after x) xs ys h.1 k)
Messages-append (some p) (x ∷ xs) ys h k =
    (h.0, h.1, h.2, Messages-append (open_after x) xs ys h.3 k)

-- The queue of a class.
abbrev pub queue_of : Bool → PendingQueue → List ChunkPayloadData
queue_of b q = if b then q.unordered_queue else q.ordered_queue

abbrev pub begins : Bool → Option ChunkPayloadData → PendingQueue → Option ChunkPayloadData
begins b last q =
    if b
    then if q.unordered_is_selected then last else none
    else if q.unordered_is_selected
    then none
    else last

pub push_all-fields :
    (cs : List ChunkPayloadData) (b : Bool) (q : PendingQueue)
    → All (λ c. c.unordered ≡ b) cs
    → (queue_of b (push_all q cs) ≡ queue_of b q ++ cs)
      × (queue_of (not b) (push_all q cs) ≡ queue_of (not b) q)
      × ((push_all q cs).selected ≡ q.selected)
      × ((push_all q cs).unordered_is_selected ≡ q.unordered_is_selected)
unfolding push_all
push_all-fields [] b q h = ground (arith, append-nil q.unordered_queue, append-nil q.ordered_queue)
push_all-fields (c ∷ cs) true q h = ground (
  arith,
  push_all-fields cs true (push q c) h.1,
  append_assoc q.unordered_queue (c ∷ []) cs,
  append_assoc q.ordered_queue (c ∷ []) cs,
)
push_all-fields (c ∷ cs) false q h = ground (
  arith,
  push_all-fields cs false (push q c) h.1,
  append_assoc q.unordered_queue (c ∷ []) cs,
  append_assoc q.ordered_queue (c ∷ []) cs,
)

open_end-append :
    (last : Option ChunkPayloadData) (xs ys : List ChunkPayloadData)
    → open_end last (xs ++ ys) ≡ open_end (open_end last xs) ys
open_end-append last [] ys = refl
open_end-append last (x ∷ xs) ys = open_end-append (open_after x) xs ys

All-snoc_class :
    (b : Bool) (q : PendingQueue) (cs : List ChunkPayloadData)
    → All (λ c. c.unordered ≡ b) (queue_of b q)
    → All (λ c. c.unordered ≡ b) cs
    → All (λ c. c.unordered ≡ b) (queue_of b q ++ cs)
All-snoc_class b q cs = All-append (λ c. c.unordered ≡ b) (queue_of b q) cs

-- Queueing a whole message (its fragments all of one class) in a queue that ends at a message's
-- end keeps the queue whole, and that class ends at a message's end again.
pub push_all-IsWhole :
    (b : Bool) (cs : List ChunkPayloadData) (last : Option ChunkPayloadData) (q : PendingQueue)
    → IsWhole last q
    → All (λ c. c.unordered ≡ b) cs
    → Messages none cs
    → open_end none cs ≡ none
    → open_end (begins b last q) (queue_of b q) ≡ none
    → IsWhole last (push_all q cs)
      × (open_end (begins b last q) (queue_of b (push_all q cs)) ≡ none)
push_all-IsWhole true cs last q v hc hm he hq =
    let f = push_all-fields cs true q hc in
    (
      record {
        selected_open = rw f.2 v.selected_open;
        unordered_class = rw f.0 (All-snoc_class true q cs v.unordered_class hc);
        ordered_class = rw f.1 v.ordered_class;
        unordered_messages =
            rw (f.3, f.0)
              (Messages-append (begins true last q) q.unordered_queue cs v.unordered_messages
                (rw hq hm));
        ordered_messages = rw (f.3, f.1) v.ordered_messages;
      },
      rw f.0 (open_end-append (begins true last q) q.unordered_queue cs ∙ rw hq he),
    )
push_all-IsWhole false cs last q v hc hm he hq =
    let f = push_all-fields cs false q hc in
    (
      record {
        selected_open = rw f.2 v.selected_open;
        unordered_class = rw f.1 v.unordered_class;
        ordered_class = rw f.0 (All-snoc_class false q cs v.ordered_class hc);
        unordered_messages = rw (f.3, f.1) v.unordered_messages;
        ordered_messages =
            rw (f.3, f.0)
              (Messages-append (begins false last q) q.ordered_queue cs v.ordered_messages
                (rw hq hm));
      },
      rw f.0 (open_end-append (begins false last q) q.ordered_queue cs ∙ rw hq he),
    )
