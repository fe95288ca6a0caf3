-- ===== src/Queue/Reassembly/Read.antt =====
-- `read` and `is_readable` of the reassembly queue.
use sctp.Base.{
  ℕ, ◌-◌, ◌≡◌, ◌≢◌, ap, ◌↔◌, ◌⊎◌, refl, true, false, ◌&&◌, List, [], ◌∷◌, none, some, arith, take,
  if◌then◌else◌, leb, Option-cases, Bool-cases, inl, inr, IsU16, All, ◌∙◌,
}
use native.Mathlib.Nat.{zero-add}
use sctp.Error.{ok, err, err_short_buffer, err_try_again}
use sctp.Sna.{sna16lte}
use sctp.Sna.Order.{sna16lte-not_gt}
use sctp.Queue.Reassembly.Fragments.{ChunkSet, is_complete}
use sctp.Queue.Reassembly.{ReassemblyQueue, ReadResult, next_set, read, is_readable, chunk_bytes}
use sctp.Queue.Reassembly.Bytes.{payload, copy_loop_lem}

read-none :
    (q : ReassemblyQueue) (buf_len : ℕ)
    → next_set q ≡ none
    → read q buf_len ≡ record { queue = q; written = []; outcome = err err_try_again }
unfolding read
read-none q buf_len e = rw (e, read) refl

read-some :
    (q : ReassemblyQueue) (buf_len : ℕ) (cset : ChunkSet) (q' : ReassemblyQueue)
    → next_set q ≡ some (cset, q')
    → read q buf_len ≡ record {
      queue = record q' { n_bytes = q'.n_bytes - chunk_bytes cset.chunks };
      written = take buf_len (payload cset.chunks);
      outcome =
          if leb (chunk_bytes cset.chunks) buf_len
          then ok (chunk_bytes cset.chunks, cset.ppi)
          else err err_short_buffer;
    }
unfolding read
read-some q buf_len cset q' e =
    rw (e, read)
      (copy_loop_lem cset.chunks buf_len cset.ppi q' [] (omega arith)
        ∙ rw (zero-add (chunk_bytes cset.chunks)) refl)

-- Where no set can be taken `read` answers ErrTryAgain and changes nothing. Otherwise the buffer
-- holds the message's data up to the buffer's length, the message leaves the queue with all its
-- bytes uncounted, and the answer is the message's length and protocol identifier if it fits, and
-- ErrShortBuffer if not: the rest of such a message is lost.
pub read_lem :
    (q : ReassemblyQueue) (buf_len : ℕ)
    → ((next_set q ≡ none)
        × (read q buf_len ≡ record { queue = q; written = []; outcome = err err_try_again }))
      ⊎ ((cset : ChunkSet) × (q' : ReassemblyQueue) × (next_set q ≡ some (cset, q'))
          × (read q buf_len ≡ record {
            queue = record q' { n_bytes = q'.n_bytes - chunk_bytes cset.chunks };
            written = take buf_len (payload cset.chunks);
            outcome =
                if leb (chunk_bytes cset.chunks) buf_len
                then ok (chunk_bytes cset.chunks, cset.ppi)
                else err err_short_buffer;
          }))
read_lem q buf_len = elim (Option-cases (next_set q)) [
  | inl e ↦ inl (e, read-none q buf_len e)
  | inr ((cset, q'), e) ↦ inr (cset, q', e, read-some q buf_len cset q' e)
]

abbrev WordSsns : ReassemblyQueue → Type 0
WordSsns q = IsU16 q.next_ssn × All (λ s. IsU16 s.ssn) q.ordered

is_readable-next_set :
    (q : ReassemblyQueue) (us ss : List ChunkSet)
    → q.unordered ≡ us
    → q.ordered ≡ ss
    → WordSsns q
    → ((is_readable q ≡ true) × (next_set q ≢ none))
      ⊎ ((is_readable q ≡ false) × (next_set q ≡ none))
unfolding is_readable next_set
is_readable-next_set q (u ∷ us) ss e f w = inl (ground arith)
is_readable-next_set q [] [] e f w = inr (ground arith)
is_readable-next_set q [] (s ∷ ss) e f w =
    let flip = sna16lte-not_gt s.ssn q.next_ssn (rw f at w.1).0 w.0 in
    elim (Bool-cases (is_complete s && sna16lte s.ssn q.next_ssn)) [
      | inl h ↦ inl (ground (arith, flip))
      | inr h ↦ inr (ground (arith, flip))
    ]

some_read :
    (q : ReassemblyQueue) (buf_len : ℕ)
    → next_set q ≢ none
    → (read q buf_len).outcome ≢ err err_try_again
some_read q buf_len n e = elim (Option-cases (next_set q)) [
  | inl h ↦ n h
  | inr ((cset, q'), h) ↦ ground (arith, read-some q buf_len cset q' h)
]

-- `is_readable` says exactly whether a `read` finds a message: what wakes a reader up is what it
-- then reads, for any buffer length.
pub read-is_readable :
    (q : ReassemblyQueue) (buf_len : ℕ)
    → WordSsns q
    → (is_readable q ≡ true) ↔ ((read q buf_len).outcome ≢ err err_try_again)
read-is_readable q buf_len w = elim (is_readable-next_set q q.unordered q.ordered refl refl w) [
  | inl (r, h) ↦ (λ _. some_read q buf_len h, λ _. r)
  | inr (r, h) ↦
      (λ t. cc, λ n. absurd (n (ap (λ (x : ReadResult). x.outcome) (read-none q buf_len h))))
]
