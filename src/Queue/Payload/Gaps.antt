-- ===== src/Queue/Payload/Gaps.antt =====
-- The gap blocks of a SACK against the set of TSNs that the receiver holds.
use sctp.Base.{
  ℕ, ◌+◌, ◌-◌, ◌^◌, ◌≤◌, ◌<◌, ◌≡◌, ◌≢◌, refl, Bool, true, false, ◌&&◌, ◌||◌, List, [], ◌∷◌, arith,
  if◌then◌else◌, ◌==◌, Bool-cases, inl, inr, All, All-map, leb, add16,
}
use sctp.Base.Assoc.{contains_key}
use sctp.Chunk.PayloadData.{ChunkPayloadData}
use sctp.Queue.Payload.Accounting.{IsConsistent}
use sctp.Queue.Payload.{PayloadQueue, GapAckBlock, gap_diff, gap_loop, get_gap_ack_blocks}

-- Is the offset inside one of the blocks?
abbrev pub covered : ℕ → List GapAckBlock → Bool
covered d [] = false
covered d (b ∷ bs) = (leb b.start d && leb d b.finish) || covered d bs

abbrev pub contains : ℕ → List ℕ → Bool
contains t [] = false
contains t (u ∷ us) = u == t || contains t us

-- Each block is a range, and the next one begins behind a missing offset.
abbrev pub Separated : List GapAckBlock → Type 0
Separated [] = Unit {0}
Separated (b ∷ bs) = (b.start ≤ b.finish) × All (λ c. b.finish + 1 < c.start) bs × Separated bs

-- TSNs in increasing order after `low`, none so far from the cumulative TSN that the offset wraps.
abbrev pub Increasing : ℕ → ℕ → List ℕ → Type 0
Increasing cum low [] = Unit {0}
Increasing cum low (t ∷ ts) = (low < t) × (t < cum + 2 ^ 16) × Increasing cum t ts

Increasing-low :
    (cum low low' : ℕ) (ts : List ℕ) → low' ≤ low → Increasing cum low ts → Increasing cum low' ts
Increasing-low cum low low' [] le h = tt
Increasing-low cum low low' (t ∷ ts) le h = (omega arith, h.1, h.2)

gap_diff_exact : (cum t : ℕ) → cum ≤ t → t < cum + 2 ^ 16 → gap_diff cum t ≡ t - cum
unfolding gap_diff
gap_diff_exact cum t h k = ground arith

abbrev block : ℕ → ℕ → GapAckBlock
block s e = record { start = s; finish = e }

-- One round of the loop: the next TSN either continues the block or starts another.
gap_loop_step :
    (cum : ℕ) (b : GapAckBlock) (t : ℕ) (ts : List ℕ)
    → b.finish < 2 ^ 16
    → cum + b.finish < t
    → t < cum + 2 ^ 16
    → gap_loop cum b (t ∷ ts) ≡ (
        if t == cum + b.finish + 1
        then gap_loop cum (block b.start (t - cum)) ts
        else b ∷ gap_loop cum (block (t - cum) (t - cum)) ts)
unfolding gap_loop
gap_loop_step cum b t ts hf lo hi = elim (Bool-cases (t == cum + b.finish + 1)) [
  | inl joins ↦ ground (arith, gap_diff_exact cum t)
  | inr apart ↦ ground (arith, gap_diff_exact cum t)
]

gap_loop-covered :
    (cum d : ℕ) (b : GapAckBlock) (ts : List ℕ)
    → b.start ≤ b.finish
    → b.finish < 2 ^ 16
    → Increasing cum (cum + b.finish) ts
    → covered d (gap_loop cum b ts) ≡ ((leb b.start d && leb d b.finish) || contains (cum + d) ts)
gap_loop-covered cum d b [] hb hf h = unfold gap_loop in refl
gap_loop-covered cum d b (t ∷ ts) hb hf h = rw (gap_loop_step cum b t ts hf h.0 h.1) (
    ground (
      arith,
      gap_loop-covered cum d (block b.start (t - cum)) ts (omega arith) (omega arith)
          (Increasing-low cum t (cum + (t - cum)) ts (omega arith) h.2),
      gap_loop-covered cum d (block (t - cum) (t - cum)) ts (omega arith) (omega arith)
          (Increasing-low cum t (cum + (t - cum)) ts (omega arith) h.2),
    ))

gap_loop-Separated :
    (cum : ℕ) (b : GapAckBlock) (ts : List ℕ)
    → b.start ≤ b.finish
    → b.finish < 2 ^ 16
    → Increasing cum (cum + b.finish) ts
    → Separated (gap_loop cum b ts) × All (λ c. b.start ≤ c.start) (gap_loop cum b ts)
gap_loop-Separated cum b [] hb hf h = unfold gap_loop in ((hb, tt, tt), (omega arith, tt))
gap_loop-Separated cum b (t ∷ ts) hb hf h =
    let later = Increasing-low cum t (cum + (t - cum)) ts (omega arith) h.2 in
    let joined =
      gap_loop-Separated cum (block b.start (t - cum)) ts (omega arith) (omega arith) later in
    let split =
      gap_loop-Separated cum (block (t - cum) (t - cum)) ts (omega arith) (omega arith) later in
    elim (Bool-cases (t == cum + b.finish + 1)) [
      | inl e ↦ rw (gap_loop_step cum b t ts hf h.0 h.1, e) joined
      | inr e ↦
          rw (gap_loop_step cum b t ts hf h.0 h.1, e)
            (
              (
                hb,
                All-map (λ c. t - cum ≤ c.start) (λ c. b.finish + 1 < c.start) _
                    (λ c le. ground (arith, le)) split.1,
                split.0,
              ),
              (
                omega arith,
                All-map (λ c. t - cum ≤ c.start) (λ c. b.start ≤ c.start) _ (λ c le. omega arith)
                    split.1,
              ),
            )
    ]

consistent_entry :
    {q : PayloadQueue} (k : ℕ) (c : ChunkPayloadData) (m : List (ℕ × ChunkPayloadData))
    → IsConsistent q
    → q.chunk_map ≡ (k, c) ∷ m
    → q.sorted ≢ []
unfolding contains_key
consistent_entry {q} k c m v e none_left = ground (arith, rw (none_left, e) at (v.indexed k))

-- The blocks of a consistent queue: none if it is empty, and else the loop from its first TSN.
abbrev StartsAt : PayloadQueue → ℕ → List ℕ → Type 0
StartsAt q cum [] = get_gap_ack_blocks q cum ≡ []
StartsAt q cum (t ∷ ts) =
    get_gap_ack_blocks q cum ≡ gap_loop cum (block (gap_diff cum t) (gap_diff cum t)) ts

gap_blocks_start :
    (q : PayloadQueue) (cum : ℕ) (m : List (ℕ × ChunkPayloadData)) (ts : List ℕ)
    → IsConsistent q
    → q.chunk_map ≡ m
    → q.sorted ≡ ts
    → StartsAt q cum ts
unfolding get_gap_ack_blocks contains_key
gap_blocks_start q cum [] [] v e f = ground arith
gap_blocks_start q cum [] (t ∷ ts) v e f = absurd (ground (arith, rw (e, f) at (v.indexed t)))
gap_blocks_start q cum ((k, c) ∷ m) [] v e f = absurd (consistent_entry k c m v e f)
gap_blocks_start q cum ((k, c) ∷ m) (t ∷ ts) v e f = ground arith

-- While the queued TSNs lie in increasing order within 2^16 - 1 above the cumulative TSN, with no
-- wrap-around between, the blocks cover an offset exactly when the queue holds its TSN, and they
-- are nonempty ranges with a missing offset between any two of them.
pub get_gap_ack_blocks-covered :
    (q : PayloadQueue) (cum : ℕ)
    → IsConsistent q
    → Increasing cum cum q.sorted
    → ((d : ℕ) → covered d (get_gap_ack_blocks q cum) ≡ contains (cum + d) q.sorted)
      × Separated (get_gap_ack_blocks q cum)
get_gap_ack_blocks-covered q cum v h =
    go q.sorted h (gap_blocks_start q cum q.chunk_map q.sorted v refl refl)
  where
    go :
        (ts : List ℕ)
        → Increasing cum cum ts
        → StartsAt q cum ts
        → ((d : ℕ) → covered d (get_gap_ack_blocks q cum) ≡ contains (cum + d) ts)
          × Separated (get_gap_ack_blocks q cum)
    go [] h s = rw s ((λ d. refl), tt)
    go (t ∷ ts) h s =
        let e = gap_diff_exact cum t (omega arith) h.1 in
        let first = block (t - cum) (t - cum) in
        let later = Increasing-low cum t (cum + (t - cum)) ts (omega arith) h.2 in
        rw (s, e)
          (
            (λ d.
                ground (arith, gap_loop-covered cum d first ts (omega arith) (omega arith) later)),
            (gap_loop-Separated cum first ts (omega arith) (omega arith) later).0,
          )

gap_diff_wrapped : (cum t : ℕ) → t < cum → gap_diff cum t ≡ 0
unfolding gap_diff
gap_diff_wrapped cum t h = ground arith

gap_loop-covered_zero :
    (cum : ℕ) (b : GapAckBlock) (ts : List ℕ) → b.start ≡ 0 → covered 0 (gap_loop cum b ts) ≡ true
unfolding gap_loop
gap_loop-covered_zero cum b [] h = ground arith
gap_loop-covered_zero cum b (t ∷ ts) h =
    ground (arith, gap_loop-covered_zero cum (block b.start (add16 b.finish 1)) ts h)

-- Past the wrap-around the offset is lost: if the first queued TSN is a smaller number than the
-- cumulative TSN, which is how every TSN ahead of it across 2^32 looks, the first block reported
-- starts at offset 0, although that offset is the cumulative TSN itself.
pub get_gap_ack_blocks_wrapped :
    (q : PayloadQueue) (cum t : ℕ) (ts : List ℕ)
    → IsConsistent q
    → q.sorted ≡ t ∷ ts
    → t < cum
    → covered 0 (get_gap_ack_blocks q cum) ≡ true
get_gap_ack_blocks_wrapped q cum t ts v e lt =
    let s : StartsAt q cum (t ∷ ts) = gap_blocks_start q cum q.chunk_map (t ∷ ts) v refl e in
    rw (s, gap_diff_wrapped cum t lt) (gap_loop-covered_zero cum (block 0 0) ts refl)
