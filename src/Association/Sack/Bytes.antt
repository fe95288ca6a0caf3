-- ===== src/Association/Sack/Bytes.antt =====
-- What `process_selective_ack` of src/association/association_internal.rs acknowledges is what
-- leaves the in-flight queue, byte for byte.
use sctp.Base.{
  ℕ, zero, suc, ◌+◌, ◌-◌, ◌≡◌, ◌≢◌, ◌⊎◌, refl, true, false, List, [], ◌∷◌, none, some,
  if◌then◌else◌, arith, Bool-cases, Option-cases, inl, inr, length, sym, ap, subst, ==_iff, add32,
  sub32, ◌==◌, head?, All,
}
use sctp.Base.Assoc.{lookup, insert, modify, remove}
use sctp.Base.Sort.{total}
use sctp.Error.{Result, ok, err, panicked}
use sctp.Chunk.PayloadData.{ChunkPayloadData}
use sctp.Sna.{sna32lte}
use sctp.Queue.Payload.{PayloadQueue, mark_as_acked, pop, get, GapAckBlock, acked_chunk}
use sctp.Queue.Payload.Accounting.{
  IsConsistent, map_bytes, map_bytes-remove, map_bytes-acked, mark_as_acked-IsConsistent, pop-Pops,
}
use sctp.Association.Internal.{Association, ChunkSelectiveAck}
use sctp.Association.Sack.{
  BytesAcked, Progress, Outcome, and_then, add_bytes, measure_rtt, ack_popped, leave_fast_recovery,
  pop_acked, pop_loop, gap_acked, block_loop, blocks_loop, process_selective_ack,
}

abbrev pub bytes_of : BytesAcked → ℕ
bytes_of m = total (λ e. e.1) m

bytes_of-insert :
    (si n : ℕ) (m : BytesAcked) → lookup si m ≡ none → bytes_of (insert si n m) ≡ bytes_of m + n
unfolding lookup insert
bytes_of-insert si n [] h = omega arith
bytes_of-insert si n ((j, k) ∷ m) h = ground (arith, bytes_of-insert si n m)

bytes_of-replace :
    (si n k : ℕ) (m : BytesAcked)
    → lookup si m ≡ some k
    → bytes_of (insert si (k + n) m) ≡ bytes_of m + n
unfolding lookup insert
bytes_of-replace si n k [] h = cc
bytes_of-replace si n k ((j, l) ∷ m) h = ground (arith, bytes_of-replace si n k m)

add_bytes_lem : (si n : ℕ) (m : BytesAcked) → bytes_of (add_bytes si n m) ≡ bytes_of m + n
unfolding add_bytes
add_bytes_lem si n m = elim (Option-cases (lookup si m)) [
  | inl e ↦ rw (e, add_bytes) (bytes_of-insert si n m e)
  | inr (k, e) ↦ rw (e, add_bytes) (bytes_of-replace si n k m e)
]

-- An acknowledged chunk has given its data up.
abbrev pub AckedEmpty : List (ℕ × ChunkPayloadData) → Type 0
AckedEmpty = All (λ e. e.1.acked ≡ true → length e.1.user_data ≡ 0)

AckedEmpty-lookup :
    (k : ℕ) (c : ChunkPayloadData) (m : List (ℕ × ChunkPayloadData))
    → AckedEmpty m
    → lookup k m ≡ some c
    → c.acked ≡ true
    → length c.user_data ≡ 0
unfolding lookup
AckedEmpty-lookup k c [] h e a = cc
AckedEmpty-lookup k c ((j, w) ∷ m) h e a = elim (Bool-cases (j == k)) [
  | inl t ↦ let s : w ≡ c = ground arith in rw⁻¹ s (h.0 (rw s a))
  | inr f ↦ AckedEmpty-lookup k c m h.1 (rw f at e) a
]

AckedEmpty-remove :
    (k : ℕ) (m : List (ℕ × ChunkPayloadData)) → AckedEmpty m → AckedEmpty (remove k m)
unfolding remove
AckedEmpty-remove k [] h = tt
AckedEmpty-remove k ((j, w) ∷ m) h = elim (Bool-cases (j == k)) [
  | inl t ↦ rw t h.1
  | inr f ↦ rw f (h.0, AckedEmpty-remove k m h.1)
]

AckedEmpty-acked :
    (k : ℕ) (m : List (ℕ × ChunkPayloadData)) → AckedEmpty m → AckedEmpty (modify k acked_chunk m)
unfolding modify acked_chunk
AckedEmpty-acked k [] h = tt
AckedEmpty-acked k ((j, w) ∷ m) h = elim (Bool-cases (j == k)) [
  | inl t ↦ rw t (λ a. refl, h.1)
  | inr f ↦ rw f (h.0, AckedEmpty-acked k m h.1)
]

-- The bytes in flight and the bytes acknowledged make `sum` together.
pub record IsBalanced (sum : ℕ) (p : Progress) : Type 0 where
  pub consistent : IsConsistent p.assoc.inflight_queue
  pub acked_empty : AckedEmpty p.assoc.inflight_queue.chunk_map
  pub balance : map_bytes p.assoc.inflight_queue.chunk_map + bytes_of p.bytes_acked ≡ sum

measure_rtt-inflight :
    (now : ℕ) (a : Association) (c : ChunkPayloadData)
    → (measure_rtt now a c).0.inflight_queue ≡ a.inflight_queue
unfolding measure_rtt
measure_rtt-inflight now a c = ground arith

ack_popped-inflight :
    (now i : ℕ) (p : Progress) (c : ChunkPayloadData)
    → (ack_popped now i p c).0.assoc.inflight_queue ≡ p.assoc.inflight_queue
unfolding ack_popped
ack_popped-inflight now i p c = ground (
  arith,
  measure_rtt-inflight now
      (if i == add32 p.assoc.cumulative_tsn_ack_point 1
        then record (p.assoc) { t3rtx = false }
        else p.assoc)
      c,
)

ack_popped-bytes :
    (now i : ℕ) (p : Progress) (c : ChunkPayloadData)
    → bytes_of (ack_popped now i p c).0.bytes_acked
      ≡ bytes_of p.bytes_acked + (if c.acked then 0 else length c.user_data)
unfolding ack_popped
ack_popped-bytes now i p c =
    ground (arith, add_bytes_lem c.stream_identifier (length c.user_data) p.bytes_acked)

pop_cases :
    (q : PayloadQueue) (tsn : ℕ)
    → IsConsistent q
    → (((pop q tsn).0 ≡ none) × ((pop q tsn).1 ≡ q))
      ⊎ ((c : ChunkPayloadData) × ((pop q tsn).0 ≡ some c)
          × (lookup tsn q.chunk_map ≡ some c)
          × ((pop q tsn).1.chunk_map ≡ remove tsn q.chunk_map))
pop_cases q tsn v = go q.sorted refl
  where
    missed : head? q.sorted ≢ some tsn → ((pop q tsn).0 ≡ none) × ((pop q tsn).1 ≡ q)
    missed h = rw ((pop-Pops tsn v).elsewhere h) (refl, refl)

    go :
        (ts : List ℕ)
        → q.sorted ≡ ts
        → (((pop q tsn).0 ≡ none) × ((pop q tsn).1 ≡ q))
          ⊎ ((c : ChunkPayloadData) × ((pop q tsn).0 ≡ some c)
              × (lookup tsn q.chunk_map ≡ some c)
              × ((pop q tsn).1.chunk_map ≡ remove tsn q.chunk_map))
    go [] e = inl (missed (rw e (λ x. cc)))
    go (t ∷ ts) e = elim (Bool-cases (tsn == t)) [
      | inl hit ↦
          let (c, p, l, s, m) = (pop-Pops tsn v).front t ts e ((==_iff tsn t).0 hit) in
          inr (c, p, l, m)
      | inr miss ↦ inl (missed (rw e (λ x. ground (arith, x))))
    ]

abbrev Balances : ℕ → Progress × Result (Unit {0}) → Type 0
Balances sum r = IsBalanced sum r.0

and_then-Balances :
    (sum : ℕ) (r : Outcome) (f : Progress → Outcome)
    → Balances sum r
    → ((p : Progress) → IsBalanced sum p → Balances sum (f p))
    → Balances sum (and_then r f)
and_then-Balances sum (p, ok _) f k l = l p k
and_then-Balances sum (p, err e) f k l = k
and_then-Balances sum (p, panicked) f k l = k

-- Only these three parts of the progress matter.
same-IsBalanced :
    (sum : ℕ) (p r : Progress)
    → r.assoc.inflight_queue ≡ p.assoc.inflight_queue
    → bytes_of r.bytes_acked ≡ bytes_of p.bytes_acked
    → IsBalanced sum p
    → IsBalanced sum r
same-IsBalanced sum p r e b v = record {
  consistent = rw e v.consistent;
  acked_empty = rw e v.acked_empty;
  balance = rw (e, b) v.balance;
}

leave_fast_recovery-IsBalanced :
    (sum : ℕ) (c : ChunkPayloadData) (p : Progress)
    → IsBalanced sum p
    → IsBalanced sum (leave_fast_recovery c p)
unfolding leave_fast_recovery
leave_fast_recovery-IsBalanced sum c p v =
    same-IsBalanced sum p (leave_fast_recovery c p) (ground arith) (ground arith) v

abbrev with_inflight : Progress → PayloadQueue → Progress
with_inflight p q = record p { assoc = record (p.assoc) { inflight_queue = q } }

popped-IsBalanced :
    (sum now i : ℕ) (p : Progress) (c : ChunkPayloadData)
    → IsBalanced sum p
    → lookup i p.assoc.inflight_queue.chunk_map ≡ some c
    → (pop p.assoc.inflight_queue i).1.chunk_map ≡ remove i p.assoc.inflight_queue.chunk_map
    → Balances sum (ack_popped now i (with_inflight p (pop p.assoc.inflight_queue i).1) c)
popped-IsBalanced sum now i p c v l m =
    let q = (pop p.assoc.inflight_queue i).1 in
    let f = ack_popped-inflight now i (with_inflight p q) c in
    record {
      consistent = rw f ((pop-Pops i v.consistent).consistent);
      acked_empty = rw (f, m) (AckedEmpty-remove i p.assoc.inflight_queue.chunk_map v.acked_empty);
      balance = ground (
        arith,
        ack_popped-bytes now i (with_inflight p q) c,
        ap (λ r. map_bytes r.chunk_map) f,
        ap map_bytes m,
        map_bytes-remove i c p.assoc.inflight_queue.chunk_map l,
        AckedEmpty-lookup i c p.assoc.inflight_queue.chunk_map v.acked_empty l,
        v.balance,
      );
    }

pop_acked-IsBalanced :
    (sum now i : ℕ) (p : Progress) → IsBalanced sum p → Balances sum (pop_acked now i p)
unfolding pop_acked
pop_acked-IsBalanced sum now i p v = elim (pop_cases p.assoc.inflight_queue i v.consistent) [
  | inl (e, k) ↦ rw (e, pop_acked) (subst (λ r. IsBalanced sum (with_inflight p r)) (sym k) v)
  | inr (c, e, l, m) ↦
      rw (e, pop_acked)
        (and_then-Balances sum
          (ack_popped now i (with_inflight p (pop p.assoc.inflight_queue i).1) c)
          (λ r. (leave_fast_recovery c r, ok tt)) (popped-IsBalanced sum now i p c v l m)
          (λ r k. leave_fast_recovery-IsBalanced sum c r k))
]

pop_loop-IsBalanced :
    (sum fuel now cum i : ℕ) (p : Progress)
    → IsBalanced sum p
    → Balances sum (pop_loop fuel now cum i p)
unfolding pop_loop
pop_loop-IsBalanced sum zero now cum i p v = v
pop_loop-IsBalanced sum (suc fuel) now cum i p v = elim (Bool-cases (sna32lte i cum)) [
  | inr e ↦ rw (e, pop_loop) v
  | inl e ↦
      rw (e, pop_loop)
        (and_then-Balances sum (pop_acked now i p) (pop_loop fuel now cum (add32 i 1))
          (pop_acked-IsBalanced sum now i p v)
          (λ r k. pop_loop-IsBalanced sum fuel now cum (add32 i 1) r k))
]

gap_measured :
    (now tsn : ℕ) (p : Progress) (c : ChunkPayloadData)
    → get p.assoc.inflight_queue tsn ≡ some c
    → c.acked ≡ false
    → ((gap_acked now tsn p).0.assoc.inflight_queue ≡ (mark_as_acked p.assoc.inflight_queue tsn).1)
      × (bytes_of (gap_acked now tsn p).0.bytes_acked
          ≡ bytes_of p.bytes_acked + (mark_as_acked p.assoc.inflight_queue tsn).0)
unfolding gap_acked measure_rtt
gap_measured now tsn p c e a = (
  ground arith,
  ground (
    arith,
    add_bytes_lem c.stream_identifier (mark_as_acked p.assoc.inflight_queue tsn).0 p.bytes_acked,
  ),
)

gap_skipped :
    (now tsn : ℕ) (p : Progress)
    → (get p.assoc.inflight_queue tsn ≡ none)
      ⊎ ((c : ChunkPayloadData) × (get p.assoc.inflight_queue tsn ≡ some c) × (c.acked ≡ true))
    → (gap_acked now tsn p).0 ≡ p
unfolding gap_acked
gap_skipped now tsn p (inl e) = rw (e, gap_acked) refl
gap_skipped now tsn p (inr (c, e, a)) = rw (e, a, gap_acked) refl

marked :
    (q : PayloadQueue) (tsn : ℕ) (c : ChunkPayloadData)
    → get q tsn ≡ some c
    → AckedEmpty q.chunk_map
    → AckedEmpty (mark_as_acked q tsn).1.chunk_map
      × (map_bytes (mark_as_acked q tsn).1.chunk_map + (mark_as_acked q tsn).0
          ≡ map_bytes q.chunk_map)
unfolding mark_as_acked get
marked q tsn c e h =
    rw (e, mark_as_acked) (AckedEmpty-acked tsn q.chunk_map h, map_bytes-acked tsn c q.chunk_map e)

gap_acked-IsBalanced :
    (sum now tsn : ℕ) (p : Progress) → IsBalanced sum p → Balances sum (gap_acked now tsn p)
gap_acked-IsBalanced sum now tsn p v = elim (Option-cases (get p.assoc.inflight_queue tsn)) [
  | inl e ↦ rw (gap_skipped now tsn p (inl e)) v
  | inr (c, e) ↦ elim (Bool-cases c.acked) [
    | inl a ↦ rw (gap_skipped now tsn p (inr (c, e, a))) v
    | inr a ↦
        let (f, b) = gap_measured now tsn p c e a in
        let (h, m) = marked p.assoc.inflight_queue tsn c e v.acked_empty in
        record {
          consistent = rw f (mark_as_acked-IsConsistent tsn v.consistent);
          acked_empty = rw f h;
          balance = omega (arith, ap (λ r. map_bytes r.chunk_map) f, b, m, v.balance);
        }
  ]
]

block_loop-IsBalanced :
    (sum n now cum i : ℕ) (p : Progress)
    → IsBalanced sum p
    → Balances sum (block_loop n now cum i p)
unfolding block_loop
block_loop-IsBalanced sum zero now cum i p v = v
block_loop-IsBalanced sum (suc n) now cum i p v =
    and_then-Balances sum (gap_acked now (add32 cum i) p) (block_loop n now cum (i + 1))
      (gap_acked-IsBalanced sum now (add32 cum i) p v)
      (λ r k. block_loop-IsBalanced sum n now cum (i + 1) r k)

blocks_loop-IsBalanced :
    (sum now cum : ℕ) (gs : List GapAckBlock) (p : Progress)
    → IsBalanced sum p
    → Balances sum (blocks_loop now cum gs p)
unfolding blocks_loop
blocks_loop-IsBalanced sum now cum [] p v = v
blocks_loop-IsBalanced sum now cum (g ∷ gs) p v =
    and_then-Balances sum (block_loop (g.finish + 1 - g.start) now cum g.start p)
      (blocks_loop now cum gs)
      (block_loop-IsBalanced sum (g.finish + 1 - g.start) now cum g.start p v)
      (λ r k. blocks_loop-IsBalanced sum now cum gs r k)

-- A SACK takes from the in-flight queue exactly the bytes that it reports as acknowledged, over all
-- streams together, each chunk counted once whether the cumulative point or a gap-ack block
-- reaches it first, and also when it stops at an error; the queue stays consistent. Given: a
-- consistent queue whose acknowledged chunks have given their data up.
pub process_selective_ack-IsBalanced :
    (now : ℕ) (a : Association) (d : ChunkSelectiveAck)
    → IsConsistent a.inflight_queue
    → AckedEmpty a.inflight_queue.chunk_map
    → IsBalanced (map_bytes a.inflight_queue.chunk_map) (process_selective_ack now a d).0
unfolding process_selective_ack
process_selective_ack-IsBalanced now a d v h =
    let sum = map_bytes a.inflight_queue.chunk_map in
    let cum = d.cumulative_tsn_ack in
    let i = add32 a.cumulative_tsn_ack_point 1 in
    let start : Progress = record { assoc = a; bytes_acked = []; htna = cum } in
    and_then-Balances sum (pop_loop (sub32 (add32 cum 1) i) now cum i start)
      (blocks_loop now cum d.gap_ack_blocks)
      (pop_loop-IsBalanced sum (sub32 (add32 cum 1) i) now cum i start
        (record { consistent = v; acked_empty = h; balance = omega arith }))
      (λ r k. blocks_loop-IsBalanced sum now cum d.gap_ack_blocks r k)
