-- ===== src/Stream/RoundTrip.antt =====
-- The sender of src/stream/mod.rs against the receiver of src/queue/reassembly_queue.rs: what
-- `packetize` cuts is a complete message for the reassembly queue, which reads it back.
use sctp.Base.{
  ℕ, ◌<◌, ◌≡◌, refl, Bool, true, false, ◌&&◌, List, [], ◌∷◌, ◌++◌, some, length, is_empty, ap, ◌∙◌,
  arith, add32, ==_refl,
}
use sctp.Chunk.PayloadData.{ChunkPayloadData, PayloadProtocolIdentifier}
use sctp.Queue.Reassembly.Fragments.{is_complete, last_ends, contiguous}
use sctp.Queue.Reassembly.Bytes.{payload}
use sctp.Stream.{Stream, Shared, packetize, count_message, new_flags}
use sctp.Stream.Packetize.{Framed, IsCut, goes_unordered, packetize_lem}

-- Transmission numbers in a row from `tsn`, as `generate_next_tsn` of
-- src/association/association_internal.rs gives them.
abbrev pub numbered : ℕ → List ChunkPayloadData → List ChunkPayloadData
numbered tsn [] = []
numbered tsn (c ∷ cs) = record c { tsn = tsn } ∷ numbered (add32 tsn 1) cs

payload-numbered : (tsn : ℕ) (cs : List ChunkPayloadData) → payload (numbered tsn cs) ≡ payload cs
payload-numbered tsn [] = refl
payload-numbered tsn (c ∷ cs) = ap (◌++◌ c.user_data) (payload-numbered (add32 tsn 1) cs)

contiguous-numbered :
    (tsn : ℕ) (cs : List ChunkPayloadData) → contiguous tsn (numbered (add32 tsn 1) cs) ≡ true
unfolding contiguous
contiguous-numbered tsn [] = refl
contiguous-numbered tsn (c ∷ cs) =
    rw (==_refl (add32 tsn 1), contiguous-numbered (add32 tsn 1) cs) refl

last_ends-numbered :
    (tsn : ℕ) (d : ChunkPayloadData) (cs : List ChunkPayloadData)
    → d.ending_fragment ≡ is_empty cs
    → Framed false cs
    → last_ends d (numbered tsn cs) ≡ true
unfolding last_ends
last_ends-numbered tsn d [] e f = e
last_ends-numbered tsn d (x ∷ xs) e f =
    last_ends-numbered (add32 tsn 1) (record x { tsn = tsn }) xs f.1 f.2

all_true : {a b c : Bool} → a ≡ true → b ≡ true → c ≡ true → (a && b && c) ≡ true
all_true h j k = cc

-- A message that is not empty arrives as a complete set with the message's bytes: the fragments
-- that `packetize` makes of it (`max_payload_size` not 0), numbered in a row from any number, with
-- the numbers wrapping around or not.
pub packetize-is_complete :
    (s : Stream) (h : Shared) (raw : List ℕ) (ppi : PayloadProtocolIdentifier) (tsn ssn : ℕ)
    → 0 < s.max_payload_size
    → 0 < length raw
    → (cs : List ChunkPayloadData) × (packetize s h raw ppi
        ≡ some (cs, count_message s (goes_unordered s ppi) (length raw), new_flags h))
      × (is_complete (record { ssn = ssn; ppi = ppi; chunks = numbered tsn cs }) ≡ true)
      × (payload (numbered tsn cs) ≡ raw)
unfolding is_complete
packetize-is_complete s h raw ppi tsn ssn m l =
    let (cs, e, k) = packetize_lem s h raw ppi m in
    (cs, e, go cs k, payload-numbered tsn cs ∙ k.whole)
  where
    go :
        (cs : List ChunkPayloadData)
        → IsCut s ppi (goes_unordered s ppi) h.next_cell true raw cs
        → is_complete (record { ssn = ssn; ppi = ppi; chunks = numbered tsn cs }) ≡ true
    go [] k = absurd (ground (arith, k.some_fragment))
    go (c ∷ cs) k =
        all_true k.framed.0
          (last_ends-numbered (add32 tsn 1) (record c { tsn = tsn }) cs k.framed.1 k.framed.2)
          (contiguous-numbered tsn cs)
