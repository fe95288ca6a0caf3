-- ===== src/Queue/Reassembly/Uncounted.antt =====
-- Reading and skipping keep the byte counter of the reassembly queue right.
use sctp.Base.{
  ℕ, ◌+◌, ◌≡◌, refl, ap, ◌∙◌, List, [], ◌∷◌, some, arith, length, take, drop, take-append-drop, inl,
  inr,
}
use sctp.Base.Sort.{total-append}
use sctp.Chunk.PayloadData.{ChunkPayloadData}
use sctp.Queue.Reassembly.Fragments.{ChunkSet}
use sctp.Queue.Reassembly.{
  ReassemblyQueue, next_set, read, chunk_bytes, subtract_num_bytes, skipped_bytes, retained,
  forward_tsn_for_ordered, forward_tsn_for_unordered, subtract_all, count_forwarded,
}
use sctp.Queue.Reassembly.Bytes.{subtract_num_bytes_lem, uncounted}
use sctp.Queue.Reassembly.Read.{read_lem}
use sctp.Queue.Reassembly.Counted.{IsCounted, held_bytes, sets_bytes}

-- What `next_set` takes is what the queue then no longer holds.
next_set-bytes :
    (q q' : ReassemblyQueue) (cset : ChunkSet) (us ss : List ChunkSet)
    → q.unordered ≡ us
    → q.ordered ≡ ss
    → next_set q ≡ some (cset, q')
    → (held_bytes q ≡ chunk_bytes cset.chunks + held_bytes q') × (q'.n_bytes ≡ q.n_bytes)
unfolding next_set
next_set-bytes q q' cset (u ∷ us) ss e f h = ground arith
next_set-bytes q q' cset [] [] e f h = ground arith
next_set-bytes q q' cset [] (s ∷ ss) e f h = ground arith

-- Whatever the buffer's length, `read` keeps the counter right.
pub read-IsCounted :
    (q : ReassemblyQueue) (buf_len : ℕ) → IsCounted q → IsCounted (read q buf_len).queue
read-IsCounted q buf_len v = elim (read_lem q buf_len) [
  | inl (_, e) ↦ rw e v
  | inr (cset, q', n, e) ↦
      rw e (omega (arith, next_set-bytes q q' cset q.unordered q.ordered refl refl n))
]

skipped-retained :
    (last_ssn : ℕ) (ss : List ChunkSet)
    → sets_bytes ss ≡ skipped_bytes last_ssn ss + sets_bytes (retained last_ssn ss)
unfolding skipped_bytes retained
skipped-retained last_ssn [] = refl
skipped-retained last_ssn (s ∷ ss) = ground (arith, skipped-retained last_ssn ss)

-- A FORWARD-TSN uncounts exactly the ordered sets that it drops, and keeps the counter right.
pub forward_tsn_for_ordered-IsCounted :
    (q : ReassemblyQueue) (last_ssn : ℕ)
    → IsCounted q
    → IsCounted (forward_tsn_for_ordered q last_ssn)
unfolding forward_tsn_for_ordered
forward_tsn_for_ordered-IsCounted q last_ssn v = ground (
  arith,
  skipped-retained last_ssn q.ordered,
  subtract_num_bytes_lem q (skipped_bytes last_ssn q.ordered),
)

subtract_all_lem :
    (cs : List ChunkPayloadData) (q : ReassemblyQueue)
    → subtract_all q cs ≡ uncounted q (chunk_bytes cs)
unfolding subtract_all
subtract_all_lem [] q = ap (λ k. record q { n_bytes = k }) (omega arith)
subtract_all_lem (c ∷ cs) q =
    subtract_all_lem cs (subtract_num_bytes q (length c.user_data))
    ∙ rw (subtract_num_bytes_lem q (length c.user_data))
        (ap (λ k. record q { n_bytes = k }) (omega arith))

-- A FORWARD-TSN uncounts exactly the unordered chunks that it drops, and keeps the counter right.
pub forward_tsn_for_unordered-IsCounted :
    (q : ReassemblyQueue) (tsn : ℕ) → IsCounted q → IsCounted (forward_tsn_for_unordered q tsn)
unfolding forward_tsn_for_unordered
forward_tsn_for_unordered-IsCounted q tsn v =
    let n = count_forwarded tsn q.unordered_chunks in
    rw (subtract_all_lem (take n q.unordered_chunks) q) (
      omega (
        arith,
        ap chunk_bytes (take-append-drop n q.unordered_chunks),
        total-append (λ (d : ChunkPayloadData). length d.user_data) (take n q.unordered_chunks)
            (drop n q.unordered_chunks),
      ))
