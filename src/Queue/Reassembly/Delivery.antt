-- ===== src/Queue/Reassembly/Delivery.antt =====
-- src/queue/reassembly_queue.rs: `push` keeps the ordered messages in sequence, and what reading
-- delivers.
use sctp.Base.{
  zero, suc, ap, sym, ◌∙◌, length, ℕ, ◌≡◌, ◌⊎◌, refl, true, false, List, [], ◌∷◌, ◌++◌, subst,
  Option, none, some, arith, Option-cases, Bool-cases, inl, inr, All, IsU16,
}
use sctp.Chunk.PayloadData.{ChunkPayloadData}
use sctp.Sna.{sna16gt}
use sctp.Queue.Reassembly.Fragments.{ChunkSet, push_chunk, new_set, is_complete}
use sctp.Queue.Reassembly.{
  ReassemblyQueue, push, push_unordered, push_ordered, push_to_set, next_set, enqueue_unordered,
  take_found, sort_chunks_by_ssn,
}
use sctp.Queue.Reassembly.Complete.{
  AllComplete, Cuts, nothing, cut, find_complete_unordered_chunk_set-Cuts, push_cases,
}
use sctp.Queue.Reassembly.Sequence.{
  InWindow16, InOrder, IsSequenced, same-InOrder, push_chunk-ssn, push_to_set-ssns,
  push_to_set-other, insert-InOrder,
}

push_ordered-new :
    (q : ReassemblyQueue) (c : ChunkPayloadData)
    → c.unordered ≡ false
    → push_to_set c q.ordered ≡ none
    → (push_ordered q c).0.ordered
      ≡ sort_chunks_by_ssn
          (q.ordered ++ (push_chunk (new_set c.stream_sequence_number c.payload_type) c).0 ∷ [])
unfolding push_ordered
push_ordered-new q c u n = ground arith

new_set-ssn :
    (c : ChunkPayloadData)
    → (push_chunk (new_set c.stream_sequence_number c.payload_type) c).0.ssn
      ≡ c.stream_sequence_number
unfolding new_set
new_set-ssn c = push_chunk-ssn (new_set c.stream_sequence_number c.payload_type) c

push_ordered-InOrder :
    (base : ℕ) (q : ReassemblyQueue) (c : ChunkPayloadData)
    → IsU16 base
    → InWindow16 base c.stream_sequence_number
    → c.unordered ≡ false
    → InOrder base q.ordered
    → InOrder base (push_ordered q c).0.ordered
unfolding push_ordered
push_ordered-InOrder base q c hb wc u o = elim (Option-cases (push_to_set c q.ordered)) [
  | inr ((ts, d), n) ↦
      rw (n, push_ordered) (same-InOrder base q.ordered ts (push_to_set-ssns c q.ordered ts d n) o)
  | inl n ↦
      let t = (push_chunk (new_set c.stream_sequence_number c.payload_type) c).0 in
      rw (push_ordered-new q c u n) (
        insert-InOrder base q.ordered t hb (rw (new_set-ssn c) wc) o
          (rw (new_set-ssn c) (push_to_set-other c q.ordered n)))
]

push_ordered-fields :
    (q : ReassemblyQueue) (c : ChunkPayloadData) → (push_ordered q c).0.next_ssn ≡ q.next_ssn
unfolding push_ordered
push_ordered-fields q c = ground arith

take_found-fields :
    (p : ReassemblyQueue) (r : Option ChunkSet × ReassemblyQueue)
    → Cuts p r
    → ((take_found r).0.next_ssn ≡ p.next_ssn) × ((take_found r).0.ordered ≡ p.ordered)
unfolding take_found
take_found-fields p r (nothing e) = rw e (refl, refl)
take_found-fields p r (cut cset before after e s c) = rw e (refl, refl)

push_unordered-fields :
    (q : ReassemblyQueue) (c : ChunkPayloadData)
    → ((push_unordered q c).0.next_ssn ≡ q.next_ssn) × ((push_unordered q c).0.ordered ≡ q.ordered)
unfolding push_unordered enqueue_unordered
push_unordered-fields q c =
    take_found-fields (enqueue_unordered q c) _
      (find_complete_unordered_chunk_set-Cuts (enqueue_unordered q c))

-- `push` keeps the ordered messages in the order of their numbers, with no number twice, as long as
-- the arriving chunk's number lies in the window.
pub push-IsSequenced :
    (base : ℕ) (q : ReassemblyQueue) (c : ChunkPayloadData)
    → InWindow16 base c.stream_sequence_number
    → IsSequenced base q
    → IsSequenced base (push q c).0
push-IsSequenced base q c wc v = elim (push_cases q c) [
  | inl e ↦ rw e v
  | inr (inl e) ↦ rw e (keep (push_unordered q c).0 (push_unordered-fields q c))
  | inr (inr (u, e)) ↦ rw e (record {
    base_word = v.base_word;
    next_window = rw (push_ordered-fields q c) v.next_window;
    in_order = push_ordered-InOrder base q c v.base_word wc u v.in_order;
  })
]
  where
    keep :
        (r : ReassemblyQueue)
        → (r.next_ssn ≡ q.next_ssn) × (r.ordered ≡ q.ordered)
        → IsSequenced base r
    keep r e = record {
      base_word = v.base_word;
      next_window = rw e.0 v.next_window;
      in_order = rw e.1 v.in_order;
    }

list_cases {ℓ} : {A : Type ℓ} (xs : List A) → (xs ≡ []) ⊎ ((x : A) × (ys : List A) × (xs ≡ x ∷ ys))
list_cases [] = inl refl
list_cases (x ∷ xs) = inr (x, xs, refl)

-- The sets that `count` reads take, one after the other, and the queue that they leave.
unfoldable pub deliver : (count : ℕ) → ReassemblyQueue → List ChunkSet × ReassemblyQueue
unfolding next_set
deliver zero q = ([], q)
deliver (suc count) q = elim (next_set q) [
  | none ↦ ([], q)
  | some (cset, rest) ↦ let (sets, left) = deliver count rest in (cset ∷ sets, left)
]

-- The order in which messages wait to be read.
abbrev pub waiting : ReassemblyQueue → List ChunkSet
waiting q = q.unordered ++ q.ordered

-- What taking one set does.
record Takes (q : ReassemblyQueue) (cset : ChunkSet) (rest : ReassemblyQueue) : Type 0 where
  front : waiting q ≡ cset ∷ waiting rest
  whole : is_complete cset ≡ true
  still_complete : AllComplete rest

next_set-ordered :
    (q rest : ReassemblyQueue) (cset : ChunkSet)
    → q.unordered ≡ []
    → next_set q ≡ some (cset, rest)
    → (q.ordered ≡ cset ∷ rest.ordered) × (rest.unordered ≡ []) × (is_complete cset ≡ true)
unfolding next_set
next_set-ordered q rest cset u e = elim (list_cases q.ordered) [
  | inl h ↦ absurd (ground arith)
  | inr (s, ss, h) ↦ elim (Bool-cases (is_complete s)) [
    | inl c ↦ elim (Bool-cases (sna16gt s.ssn q.next_ssn)) [
      | inl g ↦ absurd (ground arith)
      | inr g ↦ ground arith
    ]
    | inr c ↦ absurd (ground arith)
  ]
]

next_set-unordered :
    (q rest : ReassemblyQueue) (cset u : ChunkSet) (us : List ChunkSet)
    → q.unordered ≡ u ∷ us
    → next_set q ≡ some (cset, rest)
    → (cset ≡ u) × (rest.unordered ≡ us) × (rest.ordered ≡ q.ordered)
unfolding next_set
next_set-unordered q rest cset u us h e = ground arith

next_set-Takes :
    (q rest : ReassemblyQueue) (cset : ChunkSet)
    → AllComplete q
    → next_set q ≡ some (cset, rest)
    → Takes q cset rest
next_set-Takes q rest cset v e = elim (list_cases q.unordered) [
  | inl u ↦
      let (o, r, c) = next_set-ordered q rest cset u e in
      record { front = rw (u, r, o) refl; whole = c; still_complete = rw r tt }
  | inr (s, ss, u) ↦
      let (c, r, o) = next_set-unordered q rest cset s ss u e in
      let w : All (λ s. is_complete s ≡ true) (s ∷ ss) =
        subst (All (λ s. is_complete s ≡ true)) u v in
      record { front = rw (u, r, o, c) refl; whole = rw c (w.0); still_complete = rw r (w.1) }
]

deliver-none :
    (count : ℕ) (q : ReassemblyQueue) → next_set q ≡ none → deliver (suc count) q ≡ ([], q)
unfolding deliver
deliver-none count q e = rw (e, deliver) refl

deliver-some :
    (count : ℕ) (q rest : ReassemblyQueue) (cset : ChunkSet)
    → next_set q ≡ some (cset, rest)
    → deliver (suc count) q ≡ (cset ∷ (deliver count rest).0, (deliver count rest).1)
unfolding deliver
deliver-some count q rest cset e = rw (e, deliver) refl

-- What a number of reads has delivered.
pub record Delivers (count : ℕ) (q : ReassemblyQueue) (r : List ChunkSet × ReassemblyQueue)
    : Type 0 where
  pub in_line : waiting q ≡ r.0 ++ waiting r.1
  pub whole : All (λ s. is_complete s ≡ true) r.0
  pub exhaustive : (length r.0 ≡ count) ⊎ (next_set r.1 ≡ none)

pub deliver-Delivers :
    (count : ℕ) (q : ReassemblyQueue) → AllComplete q → Delivers count q (deliver count q)
unfolding deliver
deliver-Delivers zero q v = record { in_line = refl; whole = tt; exhaustive = inl refl }
deliver-Delivers (suc count) q v = elim (Option-cases (next_set q)) [
  | inl e ↦
      subst (Delivers (suc count) q) (sym (deliver-none count q e))
        (record { in_line = refl; whole = tt; exhaustive = inr e })
  | inr ((cset, rest), e) ↦
      let t = next_set-Takes q rest cset v e in
      let ih = deliver-Delivers count rest t.still_complete in
      subst (Delivers (suc count) q) (sym (deliver-some count q rest cset e)) (record {
        in_line = t.front ∙ ap (λ l. cset ∷ l) ih.in_line;
        whole = (t.whole, ih.whole);
        exhaustive = elim ih.exhaustive [ inl n ↦ inl (ap suc n) | inr n ↦ inr n ];
      })
]
