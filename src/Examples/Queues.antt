-- ===== src/Examples/Queues.antt =====
-- The properties of serial numbers and of the pending and payload queues, at concrete inputs.
use sctp.Base.{ℕ, ◌+◌, ◌≤◌, ◌<◌, ◌^◌, ◌≡◌, ◌⊎◌, ◌↔◌, refl, true, false, [], ◌∷◌, none, arith}
use sctp.Base.Assoc.{contains_key}
use sctp.Sna.{sna32lt, sna32gt, sna32lte, sna32gte}
use sctp.Sna.Order.{ahead32, sna32_iff}
use sctp.Queue.Pending.Accounting.{IsTallied}
use sctp.Queue.Pending.Order.{Messages, IsWhole, sent, sent-Messages}
use sctp.Queue.Payload.{PayloadQueue, get_gap_ack_blocks, mark_as_acked, can_push}
use sctp.Queue.Payload
use sctp.Queue.Payload.Accounting.{IsConsistent}
use sctp.Queue.Payload.Order.{IsOrdered, push-IsOrdered}
use sctp.Queue.Payload.Gaps.{covered, contains, Separated, get_gap_ack_blocks-covered}
use sctp.Examples.{chunk, full_pending, gapped_queue, wrapped_queue}

sna32_iff_example :
    ((sna32lt 4294967295 3 ≡ true) ↔ ((0 < ahead32 4294967295 3) × (ahead32 4294967295 3 < 2 ^ 31)))
    × ((sna32gt 4294967295 3 ≡ true) ↔ (2 ^ 31 ≤ ahead32 4294967295 3))
    × ((sna32lte 4294967295 3 ≡ true) ↔ (ahead32 4294967295 3 < 2 ^ 31))
    × ((sna32gte 4294967295 3 ≡ true)
        ↔ ((◌≡◌ {A = ℕ} 4294967295 3) ⊎ (2 ^ 31 ≤ ahead32 4294967295 3)))
sna32_iff_example = sna32_iff 4294967295 3 (omega arith) (omega arith)

full_pending-IsTallied : IsTallied full_pending
full_pending-IsTallied = record { bytes_counted = refl; chunks_counted = refl }

full_pending-IsWhole : IsWhole none full_pending
full_pending-IsWhole = record {
  selected_open = refl;
  unordered_class = (refl, tt);
  ordered_class = (refl, (refl, tt));
  unordered_messages = (refl, tt);
  ordered_messages = (refl, (refl, refl, refl, tt));
}

sent-Messages_example : Messages none (sent 3 full_pending)
sent-Messages_example = sent-Messages 3 none full_pending full_pending-IsWhole

gapped_queue-IsConsistent : IsConsistent gapped_queue
unfolding contains_key
gapped_queue-IsConsistent = record {
  indexed = λ k. ground arith;
  keyed = λ k. ground arith;
  bytes_counted = refl;
  chunks_counted = refl;
}

wrapped_queue-IsConsistent : IsConsistent wrapped_queue
unfolding contains_key
wrapped_queue-IsConsistent = record {
  indexed = λ k. ground arith;
  keyed = λ k. ground arith;
  bytes_counted = refl;
  chunks_counted = refl;
}

wrapped_queue-IsOrdered : IsOrdered 4294967290 wrapped_queue
wrapped_queue-IsOrdered = record {
  base_word = omega arith;
  in_window = ((omega arith, omega arith), ((omega arith, omega arith), tt));
  ascending = ((omega arith, tt), (tt, tt));
}

push-IsOrdered_example :
    IsOrdered 4294967290
      (Payload.push wrapped_queue (chunk 0 0 false true true (7 ∷ [])) 4294967290).0
push-IsOrdered_example =
    push-IsOrdered (chunk 0 0 false true true (7 ∷ [])) 4294967290 wrapped_queue-IsConsistent
      wrapped_queue-IsOrdered (omega arith, omega arith)

get_gap_ack_blocks-covered_example :
    ((d : ℕ) → covered d (get_gap_ack_blocks gapped_queue 9) ≡ contains (9 + d) gapped_queue.sorted)
    × Separated (get_gap_ack_blocks gapped_queue 9)
get_gap_ack_blocks-covered_example =
    get_gap_ack_blocks-covered gapped_queue 9 gapped_queue-IsConsistent
      (omega arith, omega arith, (omega arith, omega arith, tt))
