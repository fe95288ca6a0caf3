-- ===== src/Queue/Reassembly.antt =====
-- src/queue/reassembly_queue.rs: a stream's received chunks, put together into messages. Sums of
-- `u32`, `u16` and `usize` wrap; `buf` of `read` is its length, and what is written to it is a
-- result.
pub mod Fragments
pub mod Complete
pub mod Scan
pub mod Sequence
pub mod Delivery
pub mod Bytes
pub mod Read
pub mod Counted
pub mod Uncounted
use sctp.Base.{
  ℕ, suc, ◌+◌, ◌-◌, ◌≤◌, Bool, true, false, not, ◌&&◌, ◌||◌, List, [], ◌∷◌, ◌++◌, Option, none,
  some, if◌then◌else◌, length, take, drop, ltb, leb, ◌==◌, add64, add32, add16, is_empty, min,
  head?,
}
use sctp.Base.Sort.{sort_by, total}
use sctp.Error.{Result, ok, err, err_try_again, err_short_buffer, Error}
use sctp.Chunk.PayloadData.{ChunkPayloadData, PayloadProtocolIdentifier}
use sctp.Sna.{sna16lt, sna16lte, sna16gt, sna32gt, sna32lt}
use Fragments.{ChunkSet, sort_chunks_by_tsn, is_complete, new_set, push_chunk}

pub record ReassemblyQueue : Type 0 where
  pub si : ℕ
  pub next_ssn : ℕ
  pub ordered : List ChunkSet
  pub unordered : List ChunkSet
  pub unordered_chunks : List ChunkPayloadData
  pub n_bytes : ℕ

unfoldable pub new : ℕ → ReassemblyQueue
new si = record {
  si = si;
  next_ssn = 0;
  ordered = [];
  unordered = [];
  unordered_chunks = [];
  n_bytes = 0;
}

unfoldable pub less_by_ssn : ChunkSet → ChunkSet → Bool
less_by_ssn a b = sna16lt a.ssn b.ssn

unfoldable pub sort_chunks_by_ssn : List ChunkSet → List ChunkSet
sort_chunks_by_ssn c = sort_by less_by_ssn c

-- The loop's variables; `start_idx` is `none` where the source has -1.
pub record ScanState : Type 0 where
  pub start_idx : Option ℕ
  pub n_chunks : ℕ
  pub last_tsn : ℕ
  pub found : Bool

pub data ScanStep : Type 0 where
  next break : ScanState → ScanStep

-- One round of the scan for a complete run, at index `i`.
unfoldable pub scan_step : ℕ → ScanState → ChunkPayloadData → ScanStep
scan_step i s c =
    let begun : ScanState = record {
      start_idx = some i;
      n_chunks = 1;
      last_tsn = c.tsn;
      found = s.found;
    } in
    let grown = record s { last_tsn = c.tsn; n_chunks = s.n_chunks + 1 } in
    if c.beginning_fragment
    then if c.ending_fragment then break (record begun { found = true }) else next begun
    else elim s.start_idx [
      | none ↦ next s
      | some k ↦
          if not (c.tsn == add32 s.last_tsn 1)
          then next (record s { start_idx = none })
          else if c.ending_fragment
          then break (record grown { found = true })
          else next grown
    ]

unfoldable pub scan : ℕ → ScanState → List ChunkPayloadData → ScanState
unfolding scan_step
scan i s [] = s
scan i s (c ∷ cs) = elim (scan_step i s c) [ break r ↦ r | next s' ↦ scan (i + 1) s' cs ]

abbrev pub scan_start : ScanState
scan_start = record { start_idx = none; n_chunks = 0; last_tsn = 0; found = false }

-- The run `start..start + n` is drained into a set of its own; `chunks[0]` is its first chunk.
unfoldable pub extract : ReassemblyQueue → ℕ → ℕ → Option ChunkSet × ReassemblyQueue
extract q start n =
    let chunks = take n (drop start q.unordered_chunks) in
    elim (head? chunks) [
      | none ↦ (none, q)
      | some first ↦ (
        some (record { ssn = 0; ppi = first.payload_type; chunks = chunks }),
        record q {
          unordered_chunks =
              take start q.unordered_chunks ++ drop n (drop start q.unordered_chunks);
        },
      )
    ]

unfoldable pub find_complete_unordered_chunk_set :
    ReassemblyQueue → Option ChunkSet × ReassemblyQueue
unfolding scan extract
find_complete_unordered_chunk_set q =
    let s = scan 0 scan_start q.unordered_chunks in
    if s.found
    then elim s.start_idx [ none ↦ (none, q) | some start ↦ extract q start s.n_chunks ]
    else (none, q)

-- `for s in &mut self.ordered { if s.ssn == ssn { return s.push(chunk) } }`
unfoldable pub push_to_set : ChunkPayloadData → List ChunkSet → Option (List ChunkSet × Bool)
push_to_set chunk [] = none
push_to_set chunk (s ∷ ss) =
    let rest = push_to_set chunk ss in
    if s.ssn == chunk.stream_sequence_number
    then some ((push_chunk s chunk).0 ∷ ss, (push_chunk s chunk).1)
    else elim rest [ none ↦ none | some (ss', done) ↦ some (s ∷ ss', done) ]

-- The unordered branch of `push`: count and insert the chunk, then take a set if one is complete.
unfoldable pub enqueue_unordered : ReassemblyQueue → ChunkPayloadData → ReassemblyQueue
unfolding sort_chunks_by_tsn
enqueue_unordered q chunk = record q {
  n_bytes = add64 q.n_bytes (length chunk.user_data);
  unordered_chunks = sort_chunks_by_tsn (q.unordered_chunks ++ chunk ∷ []);
}

unfoldable pub take_found : Option ChunkSet × ReassemblyQueue → ReassemblyQueue × Bool
take_found (none, q) = (q, false)
take_found (some cset, q) = (record q { unordered = q.unordered ++ cset ∷ [] }, true)

unfoldable pub push_unordered : ReassemblyQueue → ChunkPayloadData → ReassemblyQueue × Bool
push_unordered q chunk = take_found (find_complete_unordered_chunk_set (enqueue_unordered q chunk))

unfoldable pub push_ordered : ReassemblyQueue → ChunkPayloadData → ReassemblyQueue × Bool
push_ordered q chunk =
    let q' = record q { n_bytes = add64 q.n_bytes (length chunk.user_data) } in
    let (cset, done) = push_chunk (new_set chunk.stream_sequence_number chunk.payload_type) chunk in
    elim (push_to_set chunk q.ordered) [
      | some (sets, complete) ↦ (record q' { ordered = sets }, complete)
      | none ↦ (
        record q' {
          ordered =
              if not chunk.unordered
              then sort_chunks_by_ssn (q.ordered ++ cset ∷ [])
              else q.ordered ++ cset ∷ [];
        },
        done,
      )
    ]

unfoldable pub push : ReassemblyQueue → ChunkPayloadData → ReassemblyQueue × Bool
push q chunk =
    if not (chunk.stream_identifier == q.si)
    then (q, false)
    else if chunk.unordered
    then push_unordered q chunk
    else if sna16lt chunk.stream_sequence_number q.next_ssn
    then (q, false)
    else push_ordered q chunk

unfoldable pub is_readable : ReassemblyQueue → Bool
is_readable q =
    if not (is_empty q.unordered)
    then true
    else elim q.ordered [ [] ↦ false | cset ∷ _ ↦ is_complete cset && sna16lte cset.ssn q.next_ssn ]

unfoldable pub subtract_num_bytes : ReassemblyQueue → ℕ → ReassemblyQueue
subtract_num_bytes q n =
    if leb n q.n_bytes then record q { n_bytes = q.n_bytes - n } else record q { n_bytes = 0 }

-- What one call of `read` does.
pub record ReadResult : Type 0 where
  pub queue : ReassemblyQueue
  pub written : List ℕ
  pub outcome : Result (ℕ × PayloadProtocolIdentifier)

-- The loop over the fragments: `written` is the buffer up to `n_written`, `short` whether an error
-- is pending.
unfoldable pub copy_loop :
    ℕ
    → PayloadProtocolIdentifier
    → ReassemblyQueue
    → List ℕ
    → Bool
    → List ChunkPayloadData
    → ReadResult
unfolding subtract_num_bytes
copy_loop buf_len ppi q written short [] = record {
  queue = q;
  written = written;
  outcome = if short then err err_short_buffer else ok (length written, ppi);
}
copy_loop buf_len ppi q written short (c ∷ cs) =
    let to_copy = length c.user_data in
    let n = min to_copy (buf_len - length written) in
    copy_loop buf_len ppi (subtract_num_bytes q to_copy)
      (if short then written else written ++ take n c.user_data)
      (if short then true else ltb n to_copy) cs

-- The set that `read` takes, or none where it answers ErrTryAgain.
unfoldable pub next_set : ReassemblyQueue → Option (ChunkSet × ReassemblyQueue)
next_set q = elim q.unordered [
  | cset ∷ rest ↦ some (cset, record q { unordered = rest })
  | [] ↦ elim q.ordered [
    | [] ↦ none
    | cset ∷ rest ↦
        if not (is_complete cset)
        then none
        else if sna16gt cset.ssn q.next_ssn
        then none
        else some (
          cset,
          record q {
            ordered = rest;
            next_ssn = if cset.ssn == q.next_ssn then add16 q.next_ssn 1 else q.next_ssn;
          },
        )
  ]
]

unfoldable pub read : ReassemblyQueue → ℕ → ReadResult
unfolding copy_loop next_set
read q buf_len = elim (next_set q) [
  | none ↦ record { queue = q; written = []; outcome = err err_try_again }
  | some (cset, q') ↦ copy_loop buf_len cset.ppi q' [] false cset.chunks
]

abbrev pub chunk_bytes : List ChunkPayloadData → ℕ
chunk_bytes = total (λ c. length c.user_data)

-- The sets that a FORWARD-TSN skips: not after `last_ssn`, and not complete.
unfoldable pub is_skipped : ℕ → ChunkSet → Bool
is_skipped last_ssn s = sna16lte s.ssn last_ssn && not (is_complete s)

unfoldable pub skipped_bytes : ℕ → List ChunkSet → ℕ
unfolding is_skipped
skipped_bytes last_ssn [] = 0
skipped_bytes last_ssn (s ∷ ss) =
    if is_skipped last_ssn s
    then chunk_bytes s.chunks + skipped_bytes last_ssn ss
    else skipped_bytes last_ssn ss

unfoldable pub retained : ℕ → List ChunkSet → List ChunkSet
retained last_ssn [] = []
retained last_ssn (s ∷ ss) =
    if not (sna16lte s.ssn last_ssn) || is_complete s
    then s ∷ retained last_ssn ss
    else retained last_ssn ss

unfoldable pub forward_tsn_for_ordered : ReassemblyQueue → ℕ → ReassemblyQueue
unfolding skipped_bytes retained subtract_num_bytes
forward_tsn_for_ordered q last_ssn =
    let q' = subtract_num_bytes q (skipped_bytes last_ssn q.ordered) in
    record q' {
      ordered = retained last_ssn q.ordered;
      next_ssn = if sna16lte q.next_ssn last_ssn then add16 last_ssn 1 else q.next_ssn;
    }

-- How many chunks stand in front of the first one after `new_cumulative_tsn`: `last_idx + 1`.
unfoldable pub count_forwarded : ℕ → List ChunkPayloadData → ℕ
count_forwarded tsn [] = 0
count_forwarded tsn (c ∷ cs) = if sna32gt c.tsn tsn then 0 else suc (count_forwarded tsn cs)

-- The loop that uncounts the chunks one by one.
unfoldable pub subtract_all : ReassemblyQueue → List ChunkPayloadData → ReassemblyQueue
unfolding subtract_num_bytes
subtract_all q [] = q
subtract_all q (c ∷ cs) = subtract_all (subtract_num_bytes q (length c.user_data)) cs

unfoldable pub forward_tsn_for_unordered : ReassemblyQueue → ℕ → ReassemblyQueue
unfolding count_forwarded subtract_all
forward_tsn_for_unordered q new_cumulative_tsn =
    let n = count_forwarded new_cumulative_tsn q.unordered_chunks in
    record (subtract_all q (take n q.unordered_chunks)) {
      unordered_chunks = drop n q.unordered_chunks;
    }

unfoldable pub get_num_bytes : ReassemblyQueue → ℕ
get_num_bytes q = q.n_bytes
