-- ===== src/Queue/Reassembly/Complete.antt =====
-- `push` of the reassembly queue keeps the sets that wait to be read unordered whole messages.
use mathlib.Core.List.{append_assoc}
use sctp.Base.{
  ℕ, ◌≡◌, refl, sym, true, false, List, [], ◌∷◌, ◌++◌, Option, none, some, arith, length, take,
  drop, take-append_length, drop-append_length, Bool-cases, inl, inr, ◌⊎◌, ◌==◌, All, All-append,
}
use sctp.Chunk.PayloadData.{ChunkPayloadData}
use sctp.Queue.Reassembly.Fragments.{ChunkSet, is_complete}
use sctp.Queue.Reassembly.{
  ReassemblyQueue, ScanState, scan, scan_start, extract, find_complete_unordered_chunk_set, push,
  push_unordered, push_ordered, take_found, enqueue_unordered,
}
use sctp.Sna.{sna16lt}
use sctp.Queue.Reassembly.Scan.{Found, scan_start-Found}

-- What `find_complete_unordered_chunk_set` may return: nothing, and the queue as it was, or a
-- complete set that was cut out of the waiting chunks in one piece.
pub data Cuts (q : ReassemblyQueue) (r : Option ChunkSet × ReassemblyQueue) : Type 0 where
  nothing : r ≡ (none, q) → Cuts q r
  cut :
      (cset : ChunkSet) (before after : List ChunkPayloadData)
      → r ≡ (some cset, record q { unordered_chunks = before ++ after })
      → q.unordered_chunks ≡ (before ++ cset.chunks) ++ after
      → is_complete cset ≡ true
      → Cuts q r

-- The run in the middle, and what is left when it is cut out.
middle {ℓ} :
    {A : Type ℓ} (xs ys zs : List A) (k n : ℕ)
    → length xs ≡ k
    → length ys ≡ n
    → (take n (drop k ((xs ++ ys) ++ zs)) ≡ ys)
      × (take k ((xs ++ ys) ++ zs) ≡ xs)
      × (drop n (drop k ((xs ++ ys) ++ zs)) ≡ zs)
middle xs ys zs k n hk hn =
    rw (append_assoc xs ys zs, drop-append_length k xs (ys ++ zs) hk)
      (
        take-append_length n ys zs hn,
        take-append_length k xs (ys ++ zs) hk,
        drop-append_length n ys zs hn,
      )

extract_lem :
    (q : ReassemblyQueue) (s : ScanState) (f : Found q.unordered_chunks s) (k : ℕ)
    → s.start_idx ≡ some k
    → Cuts q (extract q k s.n_chunks)
unfolding extract is_complete
extract_lem q s f k e =
    let run = f.first ∷ f.rest in
    let m = middle f.before run f.after k s.n_chunks (ground (arith, f.starts)) (sym f.counted) in
    let inside : take s.n_chunks (drop k q.unordered_chunks) ≡ run = rw f.splits m.0 in
    let front : take k q.unordered_chunks ≡ f.before = rw f.splits m.1 in
    let back : drop s.n_chunks (drop k q.unordered_chunks) ≡ f.after = rw f.splits m.2 in
    cut (record { ssn = 0; ppi = f.first.payload_type; chunks = run }) f.before f.after
      (ground arith) f.splits (ground (arith, f.begins, f.runs_on, f.finishes))

find_some :
    (q : ReassemblyQueue) (k : ℕ)
    → (scan 0 scan_start q.unordered_chunks).found ≡ true
    → (scan 0 scan_start q.unordered_chunks).start_idx ≡ some k
    → find_complete_unordered_chunk_set q
      ≡ extract q k (scan 0 scan_start q.unordered_chunks).n_chunks
unfolding find_complete_unordered_chunk_set
find_some q k e h = ground arith

-- Whatever chunks wait, a set is cut out only if it is a whole message (it begins and ends a
-- message and its TSNs are consecutive), it is cut out in one piece, and otherwise nothing changes.
pub find_complete_unordered_chunk_set-Cuts :
    (q : ReassemblyQueue) → Cuts q (find_complete_unordered_chunk_set q)
find_complete_unordered_chunk_set-Cuts q =
    let s = scan 0 scan_start q.unordered_chunks in
    elim (Bool-cases s.found) [
      | inr e ↦ nothing (unfold find_complete_unordered_chunk_set in rw e refl)
      | inl e ↦
          let f : Found q.unordered_chunks s = scan_start-Found q.unordered_chunks e in
          rw (find_some q (length f.before) e f.starts)
            (extract_lem q s f (length f.before) f.starts)
    ]

-- Every set that waits to be read unordered is a whole message, as the comments of `is_readable`
-- and `forward_tsn_for_unordered` say.
abbrev pub AllComplete : ReassemblyQueue → Type 0
AllComplete q = All (λ s. is_complete s ≡ true) q.unordered

take_found-AllComplete :
    (q : ReassemblyQueue) (r : Option ChunkSet × ReassemblyQueue)
    → Cuts q r
    → AllComplete q
    → AllComplete (take_found r).0
unfolding take_found
take_found-AllComplete q r (nothing e) v = rw e v
take_found-AllComplete q r (cut cset before after e s c) v =
    rw e (All-append (λ s. is_complete s ≡ true) q.unordered (cset ∷ []) v (c, tt))

push_unordered-AllComplete :
    (q : ReassemblyQueue) (chunk : ChunkPayloadData)
    → AllComplete q
    → AllComplete (push_unordered q chunk).0
push_unordered-AllComplete q chunk v =
    unfold push_unordered in
    take_found-AllComplete (enqueue_unordered q chunk) _
      (find_complete_unordered_chunk_set-Cuts (enqueue_unordered q chunk))
      (unfold enqueue_unordered in v)

pub push_cases :
    (q : ReassemblyQueue) (chunk : ChunkPayloadData)
    → (push q chunk ≡ (q, false))
      ⊎ (push q chunk ≡ push_unordered q chunk)
      ⊎ ((chunk.unordered ≡ false) × (push q chunk ≡ push_ordered q chunk))
unfolding push
push_cases q chunk = elim (Bool-cases (chunk.stream_identifier == q.si)) [
  | inr e ↦ inl (ground arith)
  | inl e ↦ elim (Bool-cases chunk.unordered) [
    | inl u ↦ inr (inl (ground arith))
    | inr u ↦ elim (Bool-cases (sna16lt chunk.stream_sequence_number q.next_ssn)) [
      | inl l ↦ inl (ground arith)
      | inr l ↦ inr (inr (u, ground arith))
    ]
  ]
]

push_ordered_unordered :
    (q : ReassemblyQueue) (chunk : ChunkPayloadData)
    → (push_ordered q chunk).0.unordered ≡ q.unordered
unfolding push_ordered
push_ordered_unordered q chunk = ground arith

-- `push` keeps every set of the `unordered` list complete, whatever chunk arrives in whatever order.
pub push-AllComplete :
    (q : ReassemblyQueue) (chunk : ChunkPayloadData) → AllComplete q → AllComplete (push q chunk).0
push-AllComplete q chunk v = elim (push_cases q chunk) [
  | inl e ↦ rw e v
  | inr (inl e) ↦ rw e (push_unordered-AllComplete q chunk v)
  | inr (inr (u, e)) ↦ rw (e, push_ordered_unordered q chunk) v
]
