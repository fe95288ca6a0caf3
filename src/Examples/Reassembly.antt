-- ===== src/Examples/Reassembly.antt =====
-- The properties of the reassembly queue, at concrete inputs.
use sctp.Base.{
  ◌-◌, ◌≡◌, ◌≢◌, ◌⊎◌, ◌↔◌, refl, true, false, [], ◌∷◌, none, some, arith, take, leb, if◌then◌else◌,
}
use sctp.Error.{ok, err, err_try_again, err_short_buffer}
use sctp.Chunk.PayloadData.{ChunkPayloadData}
use sctp.Queue.Reassembly.Fragments.{ChunkSet, is_complete, has_tsn, last_ends, contiguous}
use sctp.Queue.Reassembly.{
  ReassemblyQueue, push, read, next_set, is_readable, find_complete_unordered_chunk_set,
  chunk_bytes,
}
use sctp.Queue.Reassembly.Bytes.{payload}
use sctp.Queue.Reassembly.Complete.{
  Cuts, AllComplete, push-AllComplete, find_complete_unordered_chunk_set-Cuts,
}
use sctp.Queue.Reassembly.Sequence.{IsSequenced}
use sctp.Queue.Reassembly.Delivery.{push-IsSequenced, deliver, Delivers, deliver-Delivers}
use sctp.Queue.Reassembly.Read.{read_lem, read-is_readable}
use sctp.Queue.Reassembly.Counted.{IsCounted, is_duplicate, push-IsCounted}
use sctp.Examples.{chunk, loose, second_half, half_reassembly, full_reassembly, loose_reassembly}

-- The last fragment of the unordered message.
abbrev loose_end : ChunkPayloadData
loose_end = chunk 4 0 true false true (9 ∷ [])

push-AllComplete_example : AllComplete (push loose_reassembly loose_end).0
push-AllComplete_example = push-AllComplete loose_reassembly loose_end tt

find_complete_unordered_chunk_set-Cuts_example :
    Cuts loose_reassembly (find_complete_unordered_chunk_set loose_reassembly)
find_complete_unordered_chunk_set-Cuts_example =
    find_complete_unordered_chunk_set-Cuts loose_reassembly

push-IsSequenced_example : IsSequenced 5 (push half_reassembly second_half).0
push-IsSequenced_example =
    push-IsSequenced 5 half_reassembly second_half (omega arith, omega arith)
      (record {
        base_word = omega arith;
        next_window = (omega arith, omega arith);
        in_order = (((omega arith, omega arith), tt), (tt, tt));
      })

-- An unordered message of one chunk waits before the ordered one.
abbrev line : ReassemblyQueue
line = record full_reassembly {
  unordered = record { ssn = 0; ppi = loose.payload_type; chunks = loose ∷ [] } ∷ [];
}

deliver-Delivers_example : Delivers 3 line (deliver 3 line)
unfolding is_complete last_ends contiguous
deliver-Delivers_example = deliver-Delivers 3 line (refl, tt)

read_lem_example :
    ((next_set full_reassembly ≡ none)
      × (read full_reassembly 2
          ≡ record { queue = full_reassembly; written = []; outcome = err err_try_again }))
    ⊎ ((cset : ChunkSet) × (q' : ReassemblyQueue) × (next_set full_reassembly ≡ some (cset, q'))
        × (read full_reassembly 2 ≡ record {
          queue = record q' { n_bytes = q'.n_bytes - chunk_bytes cset.chunks };
          written = take 2 (payload cset.chunks);
          outcome =
              if leb (chunk_bytes cset.chunks) 2
              then ok (chunk_bytes cset.chunks, cset.ppi)
              else err err_short_buffer;
        }))
read_lem_example = read_lem full_reassembly 2

read-is_readable_example :
    (is_readable full_reassembly ≡ true) ↔ ((read full_reassembly 9).outcome ≢ err err_try_again)
read-is_readable_example = read-is_readable full_reassembly 9 (omega arith, (omega arith, tt))

push-IsCounted_example : IsCounted (push half_reassembly second_half).0
unfolding is_duplicate has_tsn
push-IsCounted_example = push-IsCounted half_reassembly second_half refl refl (omega arith)
