-- ===== src/Queue/Reassembly/Counted.antt =====
-- `push` of the reassembly queue keeps the byte counter at the data that the queue holds.
use sctp.Base.{
  ℕ, ◌+◌, ◌^◌, ◌<◌, ◌≡◌, refl, ◌∙◌, Bool, true, false, List, [], ◌∷◌, ◌++◌, Option, none, some,
  arith, length, if◌then◌else◌, ◌==◌, ==_iff, Option-cases, Bool-cases, inl, inr, add64,
}
use sctp.Base.Sort.{total, total-append, total-sort_by}
use sctp.Chunk.PayloadData.{ChunkPayloadData}
use sctp.Sna.{sna16lt}
use sctp.Queue.Reassembly.Fragments.{
  ChunkSet, less_by_tsn, has_tsn, push_chunk, new_set, sort_chunks_by_tsn,
}
use sctp.Queue.Reassembly.{
  ReassemblyQueue, push, push_unordered, push_ordered, push_to_set, enqueue_unordered, take_found,
  sort_chunks_by_ssn, less_by_ssn, chunk_bytes,
}
use sctp.Queue.Reassembly.Complete.{
  Cuts, nothing, cut, find_complete_unordered_chunk_set-Cuts, push_cases,
}

abbrev pub sets_bytes : List ChunkSet → ℕ
sets_bytes = total (λ s. chunk_bytes s.chunks)

-- The data of all chunks that the queue holds.
abbrev pub held_bytes : ReassemblyQueue → ℕ
held_bytes q = sets_bytes q.ordered + sets_bytes q.unordered + chunk_bytes q.unordered_chunks

abbrev pub IsCounted : ReassemblyQueue → Type 0
IsCounted q = q.n_bytes ≡ held_bytes q

-- Would the chunk meet one of its TSN in the set of its SSN?
unfoldable pub is_duplicate : ChunkPayloadData → List ChunkSet → Bool
is_duplicate chunk [] = false
is_duplicate chunk (s ∷ ss) =
    if s.ssn == chunk.stream_sequence_number
    then has_tsn chunk.tsn s.chunks
    else is_duplicate chunk ss

push_chunk-bytes :
    (s : ChunkSet) (c : ChunkPayloadData)
    → chunk_bytes (push_chunk s c).0.chunks
      ≡ chunk_bytes s.chunks + (if has_tsn c.tsn s.chunks then 0 else length c.user_data)
unfolding push_chunk sort_chunks_by_tsn
push_chunk-bytes s c = ground (
  arith,
  total-sort_by less_by_tsn (λ (d : ChunkPayloadData). length d.user_data) (s.chunks ++ c ∷ []),
  total-append (λ (d : ChunkPayloadData). length d.user_data) s.chunks (c ∷ []),
)

push_to_set-bytes :
    (c : ChunkPayloadData) (ss ss' : List ChunkSet) (done : Bool)
    → push_to_set c ss ≡ some (ss', done)
    → sets_bytes ss' ≡ sets_bytes ss + (if is_duplicate c ss then 0 else length c.user_data)
unfolding push_to_set is_duplicate
push_to_set-bytes c [] ss' done e = cc
push_to_set-bytes c (s ∷ ss) ss' done e = elim (Bool-cases (s.ssn == c.stream_sequence_number)) [
  | inl h ↦ ground (arith, push_chunk-bytes s c)
  | inr h ↦ elim (Option-cases (push_to_set c ss)) [
    | inl n ↦ ground arith
    | inr ((ts, d), n) ↦ ground (arith, push_to_set-bytes c ss ts d n)
  ]
]

push_to_set-none :
    (c : ChunkPayloadData) (ss : List ChunkSet)
    → push_to_set c ss ≡ none
    → is_duplicate c ss ≡ false
unfolding push_to_set is_duplicate
push_to_set-none c [] e = refl
push_to_set-none c (s ∷ ss) e = elim (Bool-cases (s.ssn == c.stream_sequence_number)) [
  | inl h ↦ ground arith
  | inr h ↦ elim (Option-cases (push_to_set c ss)) [
    | inl n ↦ ground (arith, push_to_set-none c ss n)
    | inr ((ts, d), n) ↦ ground arith
  ]
]

abbrev fresh_set : ChunkPayloadData → ChunkSet
fresh_set c = (push_chunk (new_set c.stream_sequence_number c.payload_type) c).0

fresh_set-bytes : (c : ChunkPayloadData) → chunk_bytes (fresh_set c).chunks ≡ length c.user_data
unfolding new_set has_tsn
fresh_set-bytes c =
    push_chunk-bytes (new_set c.stream_sequence_number c.payload_type) c ∙ omega arith

sorted_sets :
    (ss : List ChunkSet) (s : ChunkSet)
    → sets_bytes (sort_chunks_by_ssn (ss ++ s ∷ [])) ≡ sets_bytes (ss ++ s ∷ [])
unfolding sort_chunks_by_ssn
sorted_sets ss s = total-sort_by less_by_ssn (λ s. chunk_bytes s.chunks) (ss ++ s ∷ [])

-- The ordered sets after `push_ordered`, and the fields that it leaves alone.
push_ordered-bytes :
    (q : ReassemblyQueue) (c : ChunkPayloadData)
    → (sets_bytes (push_ordered q c).0.ordered
        ≡ sets_bytes q.ordered + (if is_duplicate c q.ordered then 0 else length c.user_data))
      × ((push_ordered q c).0.unordered ≡ q.unordered)
      × ((push_ordered q c).0.unordered_chunks ≡ q.unordered_chunks)
      × ((push_ordered q c).0.n_bytes ≡ add64 q.n_bytes (length c.user_data))
unfolding push_ordered
push_ordered-bytes q c = elim (Option-cases (push_to_set c q.ordered)) [
  | inr ((ts, d), n) ↦ ground (arith, push_to_set-bytes c q.ordered ts d n)
  | inl n ↦ ground (
    arith,
    push_to_set-none c q.ordered n,
    sorted_sets q.ordered (fresh_set c),
    total-append (λ (s : ChunkSet). chunk_bytes s.chunks) q.ordered (fresh_set c ∷ []),
    fresh_set-bytes c,
  )
]

take_found-bytes :
    (q : ReassemblyQueue) (r : Option ChunkSet × ReassemblyQueue)
    → Cuts q r
    → (held_bytes (take_found r).0 ≡ held_bytes q) × ((take_found r).0.n_bytes ≡ q.n_bytes)
unfolding take_found
take_found-bytes q r (nothing e) = rw e (refl, refl)
take_found-bytes q r (cut cset before after e s c) =
    rw (e, s)
      (
        omega (
          arith,
          total-append (λ (s : ChunkSet). chunk_bytes s.chunks) q.unordered (cset ∷ []),
          total-append (λ (d : ChunkPayloadData). length d.user_data) (before ++ cset.chunks) after,
          total-append (λ (d : ChunkPayloadData). length d.user_data) before cset.chunks,
          total-append (λ (d : ChunkPayloadData). length d.user_data) before after,
        ),
        refl,
      )

push_unordered-bytes :
    (q : ReassemblyQueue) (c : ChunkPayloadData)
    → (held_bytes (push_unordered q c).0 ≡ held_bytes q + length c.user_data)
      × ((push_unordered q c).0.n_bytes ≡ add64 q.n_bytes (length c.user_data))
unfolding push_unordered enqueue_unordered
push_unordered-bytes q c =
    let t =
      take_found-bytes (enqueue_unordered q c) _
        (find_complete_unordered_chunk_set-Cuts (enqueue_unordered q c)) in
    (
      omega (
        arith,
        t.0,
        total-sort_by less_by_tsn (λ (d : ChunkPayloadData). length d.user_data)
            (q.unordered_chunks ++ c ∷ []),
        total-append (λ (d : ChunkPayloadData). length d.user_data) q.unordered_chunks (c ∷ []),
      ),
      t.1,
    )

-- `push` keeps the counter right on every branch, for a chunk that is no duplicate in its set and
-- while the total stays a `usize`.
pub push-IsCounted :
    (q : ReassemblyQueue) (c : ChunkPayloadData)
    → IsCounted q
    → is_duplicate c q.ordered ≡ false
    → held_bytes q + length c.user_data < 2 ^ 64
    → IsCounted (push q c).0
push-IsCounted q c v d h = elim (push_cases q c) [
  | inl e ↦ rw e v
  | inr (inl e) ↦ rw e (omega (arith, push_unordered-bytes q c))
  | inr (inr (u, e)) ↦ rw e (ground (arith, push_ordered-bytes q c))
]

pushed_ordered :
    (q : ReassemblyQueue) (c : ChunkPayloadData)
    → c.stream_identifier ≡ q.si
    → c.unordered ≡ false
    → sna16lt c.stream_sequence_number q.next_ssn ≡ false
    → push q c ≡ push_ordered q c
unfolding push
pushed_ordered q c si u l = ground (arith, ==_iff c.stream_identifier q.si)

-- A duplicate in an ordered set is counted and not stored: the counter then stays too high by its
-- length for as long as the queue lives.
pub push_duplicate :
    (q : ReassemblyQueue) (c : ChunkPayloadData)
    → IsCounted q
    → c.stream_identifier ≡ q.si
    → c.unordered ≡ false
    → sna16lt c.stream_sequence_number q.next_ssn ≡ false
    → is_duplicate c q.ordered ≡ true
    → held_bytes q + length c.user_data < 2 ^ 64
    → (push q c).0.n_bytes ≡ held_bytes (push q c).0 + length c.user_data
push_duplicate q c v si u l d h =
    rw (pushed_ordered q c si u l) (ground (arith, push_ordered-bytes q c))
