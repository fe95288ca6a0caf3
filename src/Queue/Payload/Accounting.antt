-- ===== src/Queue/Payload/Accounting.antt =====
-- The payload queue's counters and its sorted index agree with its map, through `new`, `push`,
-- `push_no_check`, `pop` and `mark_as_acked`.
use sctp.Base.{
  ℕ, ◌+◌, ◌%◌, ◌^◌, ◌≡◌, ◌≢◌, refl, true, false, List, [], ◌∷◌, ◌++◌, Option, none, some, arith,
  length, if◌then◌else◌, ◌==◌, ==_iff, Bool-cases, Option-cases, inl, inr, sub64, head?,
}
use sctp.Base.Assoc.{
  lookup, contains_key, insert, remove, modify, count, keys, occurs, contains_key-insert,
  count-insert, length-insert, contains_key-lookup, count-remove, length-remove, contains_key-count,
  contains_key-modify, keys-modify, length-modify,
}
use sctp.Base.Sort.{total, total-append, sort_by, total-sort_by}
use sctp.Chunk.PayloadData.{ChunkPayloadData}
use sctp.Sna.{sna32lt, sna32lte}
use sctp.Queue.Payload.{
  PayloadQueue, new, can_push, push_no_check, push, pop, mark_as_acked, acked_chunk,
}

abbrev pub map_bytes : List (ℕ × ChunkPayloadData) → ℕ
map_bytes = total (λ e. length e.1.user_data)

-- Each TSN stands in the index exactly once if the map has a chunk for it and not at all if not,
-- and the counters count the chunks and their bytes, modulo 2^64.
pub record IsConsistent (q : PayloadQueue) : Type 0 where
  pub indexed : (k : ℕ) → count k q.sorted ≡ occurs (contains_key k q.chunk_map)
  pub keyed : (k : ℕ) → count k (keys q.chunk_map) ≡ occurs (contains_key k q.chunk_map)
  pub bytes_counted : q.n_bytes ≡ map_bytes q.chunk_map % 2 ^ 64
  pub chunks_counted : q.length_shared ≡ length q.chunk_map % 2 ^ 64

map_bytes-insert :
    (j : ℕ) (c : ChunkPayloadData) (m : List (ℕ × ChunkPayloadData))
    → contains_key j m ≡ false
    → map_bytes (insert j c m) ≡ map_bytes m + length c.user_data
unfolding contains_key insert
map_bytes-insert j c [] h = omega arith
map_bytes-insert j c ((i, w) ∷ m) h = ground (arith, map_bytes-insert j c m)

pub map_bytes-remove :
    (j : ℕ) (c : ChunkPayloadData) (m : List (ℕ × ChunkPayloadData))
    → lookup j m ≡ some c
    → map_bytes (remove j m) + length c.user_data ≡ map_bytes m
unfolding lookup remove
map_bytes-remove j c [] h = cc
map_bytes-remove j c ((i, w) ∷ m) h = ground (arith, map_bytes-remove j c m)

pub map_bytes-acked :
    (j : ℕ) (c : ChunkPayloadData) (m : List (ℕ × ChunkPayloadData))
    → lookup j m ≡ some c
    → map_bytes (modify j acked_chunk m) + length c.user_data ≡ map_bytes m
unfolding lookup modify acked_chunk
map_bytes-acked j c [] h = cc
map_bytes-acked j c ((i, w) ∷ m) h = ground (arith, map_bytes-acked j c m)

pub new-IsConsistent : IsConsistent new
unfolding new contains_key
new-IsConsistent = record {
  indexed = λ k. refl;
  keyed = λ k. refl;
  bytes_counted = refl;
  chunks_counted = refl;
}

count-sort_snoc :
    (k t : ℕ) (ts : List ℕ)
    → count k (sort_by sna32lt (ts ++ t ∷ [])) ≡ count k ts + occurs (t == k)
count-sort_snoc k t ts = omega (
  arith,
  total-sort_by sna32lt (λ j. if j == k then 1 else 0) (ts ++ t ∷ []),
  total-append (λ (j : ℕ). if j == k then 1 else 0) ts (t ∷ []),
)

-- `push_no_check` keeps the queue consistent if the map has no chunk for the TSN yet.
pub push_no_check-IsConsistent :
    {q : PayloadQueue} (p : ChunkPayloadData)
    → contains_key p.tsn q.chunk_map ≡ false
    → IsConsistent q
    → IsConsistent (push_no_check q p)
unfolding push_no_check
push_no_check-IsConsistent {q} p fresh v = record {
  indexed = λ k. ground (
    arith,
    count-sort_snoc k p.tsn q.sorted,
    v.indexed k,
    contains_key-insert k p.tsn p q.chunk_map,
  );
  keyed = λ k. ground (
    arith,
    count-insert k p.tsn p q.chunk_map,
    v.keyed k,
    contains_key-insert k p.tsn p q.chunk_map,
  );
  bytes_counted = omega (arith, map_bytes-insert p.tsn p q.chunk_map fresh, v.bytes_counted);
  chunks_counted = omega (arith, length-insert p.tsn p q.chunk_map fresh, v.chunks_counted);
}

-- `push` keeps the queue consistent on every branch, and refuses exactly what `can_push` refuses.
pub push-IsConsistent :
    {q : PayloadQueue} (p : ChunkPayloadData) (cumulative_tsn : ℕ)
    → IsConsistent q
    → IsConsistent (push q p cumulative_tsn).0
      × ((push q p cumulative_tsn).1 ≡ can_push q p cumulative_tsn)
unfolding push can_push
push-IsConsistent {q} p cumulative_tsn v = elim (Bool-cases (contains_key p.tsn q.chunk_map)) [
  | inl old ↦ rw old (
    record {
      indexed = v.indexed;
      keyed = v.keyed;
      bytes_counted = v.bytes_counted;
      chunks_counted = v.chunks_counted;
    },
    refl,
  )
  | inr fresh ↦ elim (Bool-cases (sna32lte p.tsn cumulative_tsn)) [
    | inl late ↦
        rw (fresh, late)
          (
            record {
              indexed = v.indexed;
              keyed = v.keyed;
              bytes_counted = v.bytes_counted;
              chunks_counted = v.chunks_counted;
            },
            refl,
          )
    | inr new ↦ rw (fresh, new) (unfold push_no_check in push_no_check-IsConsistent p fresh v, refl)
  ]
]

pop_hit :
    {q : PayloadQueue} (tsn : ℕ) (ts : List ℕ) (c : ChunkPayloadData)
    → q.sorted ≡ tsn ∷ ts
    → lookup tsn q.chunk_map ≡ some c
    → IsConsistent q
    → IsConsistent (record q {
      sorted = ts;
      chunk_map = remove tsn q.chunk_map;
      length_shared = sub64 q.length_shared 1;
      n_bytes = sub64 q.n_bytes (length c.user_data);
    })
pop_hit {q} tsn ts c e l v =
    let has = contains_key-lookup tsn c q.chunk_map l in
    record {
      indexed = λ k. ground (
        arith,
        rw e at (v.indexed k),
        contains_key-count k (remove tsn q.chunk_map),
        count-remove k tsn q.chunk_map has,
        v.keyed k,
      );
      keyed = λ k. ground (
        arith,
        contains_key-count k (remove tsn q.chunk_map),
        count-remove k tsn q.chunk_map has,
        v.keyed k,
      );
      bytes_counted = omega (arith, map_bytes-remove tsn c q.chunk_map l, v.bytes_counted);
      chunks_counted = omega (arith, length-remove tsn q.chunk_map has, v.chunks_counted);
    }

-- `mark_as_acked` keeps the queue consistent: the data of the chunk is dropped and uncounted.
pub mark_as_acked-IsConsistent :
    {q : PayloadQueue} (tsn : ℕ) → IsConsistent q → IsConsistent (mark_as_acked q tsn).1
unfolding mark_as_acked
mark_as_acked-IsConsistent {q} tsn v = elim (Option-cases (lookup tsn q.chunk_map)) [
  | inl e ↦ rw (e, mark_as_acked) v
  | inr (c, e) ↦
      rw (e, mark_as_acked)
        (record {
          indexed = λ k. rw contains_key-modify (v.indexed k);
          keyed = λ k. rw (contains_key-modify, keys-modify) (v.keyed k);
          bytes_counted = omega (arith, map_bytes-acked tsn c q.chunk_map e, v.bytes_counted);
          chunks_counted =
              omega (arith, length-modify tsn acked_chunk q.chunk_map, v.chunks_counted);
        })
]

-- What `pop` does on a consistent queue: asked for the front of the index it returns the map's
-- chunk for that TSN and removes it from both, asked for anything else it changes nothing, and the
-- queue stays consistent either way.
pub record Pops (q : PayloadQueue) (tsn : ℕ) : Type 0 where
  pub front :
      (t : ℕ) (ts : List ℕ)
      → q.sorted ≡ t ∷ ts
      → tsn ≡ t
      → (c : ChunkPayloadData) × ((pop q tsn).0 ≡ some c)
        × (lookup tsn q.chunk_map ≡ some c)
        × ((pop q tsn).1.sorted ≡ ts)
        × ((pop q tsn).1.chunk_map ≡ remove tsn q.chunk_map)
  pub elsewhere : head? q.sorted ≢ some tsn → pop q tsn ≡ (none, q)
  pub consistent : IsConsistent (pop q tsn).1

abbrev without_front : PayloadQueue → ℕ → List ℕ → ChunkPayloadData → PayloadQueue
without_front q tsn ts c = record q {
  sorted = ts;
  chunk_map = remove tsn q.chunk_map;
  length_shared = sub64 q.length_shared 1;
  n_bytes = sub64 q.n_bytes (length c.user_data);
}

pop-some :
    (q : PayloadQueue) (tsn : ℕ) (ts : List ℕ) (c : ChunkPayloadData)
    → q.sorted ≡ tsn ∷ ts
    → lookup tsn q.chunk_map ≡ some c
    → pop q tsn ≡ (some c, without_front q tsn ts c)
unfolding pop
pop-some q tsn ts c e l = ground arith

pop_elsewhere : (q : PayloadQueue) (tsn : ℕ) → head? q.sorted ≢ some tsn → pop q tsn ≡ (none, q)
unfolding pop
pop_elsewhere q tsn h = ground arith

lookup-contains_key :
    (k : ℕ) (m : List (ℕ × ChunkPayloadData))
    → contains_key k m ≡ true
    → (c : ChunkPayloadData) × (lookup k m ≡ some c)
unfolding contains_key lookup
lookup-contains_key k [] h = cc
lookup-contains_key k ((i, w) ∷ m) h = elim (Bool-cases (i == k)) [
  | inl e ↦ (w, rw e refl)
  | inr e ↦ let (c, l) = lookup-contains_key k m (rw e at h) in (c, rw e l)
]

-- The chunk of the TSN at the front of a consistent queue.
front_chunk :
    {q : PayloadQueue} (tsn : ℕ) (ts : List ℕ)
    → IsConsistent q
    → q.sorted ≡ tsn ∷ ts
    → (c : ChunkPayloadData) × (lookup tsn q.chunk_map ≡ some c)
front_chunk {q} tsn ts v e =
    lookup-contains_key tsn q.chunk_map (ground (arith, rw e at (v.indexed tsn), ==_iff tsn tsn))

-- On a consistent queue `pop` is all or nothing, and never loses an index entry without its chunk.
pub pop-Pops : {q : PayloadQueue} (tsn : ℕ) → IsConsistent q → Pops q tsn
pop-Pops {q} tsn v = record {
  front = λ t ts e same.
      let e' : q.sorted ≡ tsn ∷ ts = rw same e in
      let (c, l) = front_chunk tsn ts v e' in
      let p = pop-some q tsn ts c e' l in (c, rw p refl, l, rw p refl, rw p refl);
  elsewhere = pop_elsewhere q tsn;
  consistent = at_front (head? q.sorted) q.sorted refl;
}
  where
    at_front : (o : Option ℕ) (ts : List ℕ) → q.sorted ≡ ts → IsConsistent (pop q tsn).1
    at_front o [] e = rw (pop_elsewhere q tsn (rw e (λ x. cc))) v
    at_front o (t ∷ ts) e = elim (Bool-cases (tsn == t)) [
      | inl hit ↦
          let e' : q.sorted ≡ tsn ∷ ts = rw ((==_iff tsn t).0 hit) e in
          let (c, l) = front_chunk tsn ts v e' in
          rw (pop-some q tsn ts c e' l) (pop_hit tsn ts c e' l v)
      | inr miss ↦ rw (pop_elsewhere q tsn (rw e (λ x. ground (arith, x)))) v
    ]
