-- ===== src/Queue/Pending/Order.antt =====
-- The order in which chunks leave the pending queue, when the sender takes what `peek` shows, as
-- `pop_pending_data_chunks_to_send` does in src/association/association_internal.rs.
use sctp.Base.{
  ℕ, zero, suc, ◌≡◌, refl, Bool, true, false, List, [], ◌∷◌, ◌++◌, Option, none, some, arith,
  if◌then◌else◌, All, Option-cases, inl, inr, subst,
}
use mathlib.Core.List.{append_assoc}
use sctp.Chunk.PayloadData.{ChunkPayloadData}
use sctp.Queue.Pending.{PendingQueue, pop, peek}

-- The fragment that a next one has to continue: none after the last fragment of a message.
abbrev pub open_after : ChunkPayloadData → Option ChunkPayloadData
open_after c = if c.ending_fragment then none else some c

-- Whole messages one after the other, the first of them continuing `last`. The list may stop
-- inside a message.
abbrev pub Messages : Option ChunkPayloadData → List ChunkPayloadData → Type 0
Messages last [] = Unit {0}
Messages none (c ∷ cs) = (c.beginning_fragment ≡ true) × Messages (open_after c) cs
Messages (some p) (c ∷ cs) =
    (c.beginning_fragment ≡ false)
    × (c.stream_identifier ≡ p.stream_identifier)
    × (c.stream_sequence_number ≡ p.stream_sequence_number)
    × Messages (open_after c) cs

abbrev is_some {ℓ} : {A : Type ℓ} → Option A → Bool
is_some none = false
is_some (some a) = true

-- The queue after the fragment `last` was sent: each chunk stands in the queue of its class, each
-- queue holds whole messages, and only the selected one may begin inside a message.
pub record IsWhole (last : Option ChunkPayloadData) (q : PendingQueue) : Type 0 where
  pub selected_open : q.selected ≡ is_some last
  pub unordered_class : All (λ c. c.unordered ≡ true) q.unordered_queue
  pub ordered_class : All (λ c. c.unordered ≡ false) q.ordered_queue
  pub unordered_messages :
      Messages (if q.unordered_is_selected then last else none) q.unordered_queue
  pub ordered_messages : Messages (if q.unordered_is_selected then none else last) q.ordered_queue

-- One round of the sender: pop what `peek` shows.
unfoldable pub take_next : PendingQueue → Option ChunkPayloadData × PendingQueue
take_next q = elim (peek q) [ none ↦ (none, q) | some c ↦ pop q c.beginning_fragment c.unordered ]

abbrev after : Option ChunkPayloadData → Option ChunkPayloadData → Option ChunkPayloadData
after last none = last
after last (some c) = open_after c

abbrev Continues : Option ChunkPayloadData → Option ChunkPayloadData → Type 0
Continues last none = Unit {0}
Continues last (some c) = Messages last (c ∷ [])

abbrev class_of : Bool → Option ChunkPayloadData → List ChunkPayloadData
class_of b none = []
class_of b (some c) = if c.unordered then (if b then c ∷ [] else []) else (if b then [] else c ∷ [])

-- What one round does: `peek` and `pop` agree, the chunk continues the message under way, the
-- queue stays whole, and each class loses exactly its front.
record Taken (last : Option ChunkPayloadData) (q : PendingQueue) : Type 0 where
  agree : (take_next q).0 ≡ peek q
  continues : Continues last (take_next q).0
  whole : IsWhole (after last (take_next q).0) (take_next q).1
  unordered_front :
      q.unordered_queue ≡ class_of true (take_next q).0 ++ (take_next q).1.unordered_queue
  ordered_front : q.ordered_queue ≡ class_of false (take_next q).0 ++ (take_next q).1.ordered_queue

take_next-Taken :
    (last : Option ChunkPayloadData) (q : PendingQueue) (us os : List ChunkPayloadData)
    → q.unordered_queue ≡ us
    → q.ordered_queue ≡ os
    → IsWhole last q
    → Taken last q
unfolding take_next peek pop
take_next-Taken none q [] [] e f v = ground arith
take_next-Taken none q [] (o ∷ os) e f v = ground arith
take_next-Taken none q (u ∷ us) [] e f v = ground arith
take_next-Taken none q (u ∷ us) (o ∷ os) e f v = ground arith
take_next-Taken (some p) q [] [] e f v = ground arith
take_next-Taken (some p) q [] (o ∷ os) e f v = ground arith
take_next-Taken (some p) q (u ∷ us) [] e f v = ground arith
take_next-Taken (some p) q (u ∷ us) (o ∷ os) e f v = ground arith

-- What `n` rounds send, and the queue that is left.
unfoldable pub sent : ℕ → PendingQueue → List ChunkPayloadData
sent zero q = []
sent (suc n) q =
    let rest = sent n (take_next q).1 in elim (take_next q).0 [ none ↦ [] | some c ↦ c ∷ rest ]

unfoldable pub left : ℕ → PendingQueue → PendingQueue
left zero q = q
left (suc n) q =
    let rest = left n (take_next q).1 in elim (take_next q).0 [ none ↦ q | some c ↦ rest ]

abbrev pub class : Bool → List ChunkPayloadData → List ChunkPayloadData
class b [] = []
class b (c ∷ cs) = class_of b (some c) ++ class b cs

Messages-cons :
    (last : Option ChunkPayloadData) (c : ChunkPayloadData) (cs : List ChunkPayloadData)
    → Messages last (c ∷ [])
    → Messages (open_after c) cs
    → Messages last (c ∷ cs)
Messages-cons none c cs h m = (h.0, m)
Messages-cons (some p) c cs h m = (h.0, h.1, h.2, m)

module _ (n : ℕ) (q : PendingQueue) where
  round_stop : (take_next q).0 ≡ none → (sent (suc n) q ≡ []) × (left (suc n) q ≡ q)
  unfolding sent left
  round_stop e = (rw (e, sent), rw (e, left))

  round_step :
      (c : ChunkPayloadData)
      → (take_next q).0 ≡ some c
      → (sent (suc n) q ≡ c ∷ sent n (take_next q).1) × (left (suc n) q ≡ left n (take_next q).1)
  unfolding sent left
  round_step c e = (rw (e, sent), rw (e, left))

-- From a queue in which each class holds whole messages one after the other, behind the rest of the
-- message under way, the chunks leave message by message, whatever the number of rounds: no other
-- fragment comes between two fragments of one message. The rounds may stop inside a message.
pub sent-Messages :
    (n : ℕ) (last : Option ChunkPayloadData) (q : PendingQueue)
    → IsWhole last q
    → Messages last (sent n q)
unfolding sent
sent-Messages zero last q v = tt
sent-Messages (suc n) last q v =
    let t : Taken last q = take_next-Taken last q _ _ refl refl v in
    elim (Option-cases (take_next q).0) [
      | inl e ↦ rw ((round_stop n q e).0) tt
      | inr (c, e) ↦ rw ((round_step n q c e).0) (
          Messages-cons last c _ (subst (Continues last) e t.continues) (
            sent-Messages n (open_after c) (take_next q).1
              (subst (λ x. IsWhole (after last x) (take_next q).1) e t.whole)))
    ]

-- Whatever the number of rounds, each class of chunks (unordered, ordered) leaves in the order in
-- which it was queued, and none is lost: what was sent and what is left make up the old queue.
pub sent-class :
    (n : ℕ) (last : Option ChunkPayloadData) (q : PendingQueue)
    → IsWhole last q
    → (q.unordered_queue ≡ class true (sent n q) ++ (left n q).unordered_queue)
      × (q.ordered_queue ≡ class false (sent n q) ++ (left n q).ordered_queue)
sent-class zero last q v = (unfold sent left in refl, unfold sent left in refl)
sent-class (suc n) last q v =
    let t : Taken last q = take_next-Taken last q _ _ refl refl v in
    elim (Option-cases (take_next q).0) [
      | inl e ↦ let s = round_stop n q e in (rw (s.0, s.1) refl, rw (s.0, s.1) refl)
      | inr (c, e) ↦
          let ih =
            sent-class n (open_after c) (take_next q).1
              (subst (λ x. IsWhole (after last x) (take_next q).1) e t.whole) in
          let s = round_step n q c e in
          (
            ground (
              arith,
              append_assoc (class_of true (some c)) (class true (sent n (take_next q).1))
                  (left n (take_next q).1).unordered_queue,
            ),
            ground (
              arith,
              append_assoc (class_of false (some c)) (class false (sent n (take_next q).1))
                  (left n (take_next q).1).ordered_queue,
            ),
          )
    ]
