-- ===== src/Association/Sack/Handle/Forward.antt =====
-- How far `handle_sack` of src/association/association_internal.rs moves the point up to which the
-- peer may forget chunks, and that the loop which moves it ends.
use sctp.Base.{
  ℕ, zero, suc, ◌+◌, ◌≤◌, ◌<◌, ◌^◌, ◌≡◌, ◌⊎◌, refl, true, false, List, none, some, length, arith,
  Bool-cases, Option-cases, inl, inr, add32, ◌==◌, subst, ap,
}
use sctp.Base.Assoc.{
  contains_key, remove, contains_key-count, count-remove, length-remove, contains_key-lookup,
}
use sctp.Chunk.PayloadData.{ChunkPayloadData, abandoned}
use sctp.Queue.Payload.{get, len}
use sctp.Association.Internal.{Association}
use sctp.Association.Sack.Handle.{skip_abandoned}

module _ {ℓ} {V : Type ℓ} where
  still_there :
      (m : List (ℕ × V)) (j k : ℕ)
      → contains_key j m ≡ true
      → contains_key k m ≡ true
      → (j == k) ≡ false
      → contains_key k (remove j m) ≡ true
  still_there m j k hj hk d =
      ground
        (arith, contains_key-count k (remove j m), contains_key-count k m, count-remove k j m hj)

  -- A map that has `n` numbers in a row has at least `n` entries.
  consecutive-length :
      (n base : ℕ) (m : List (ℕ × V))
      → n ≤ 2 ^ 32
      → ((k : ℕ) → k < n → contains_key (add32 base k) m ≡ true)
      → n ≤ length m
  consecutive-length zero base m h c = omega arith
  consecutive-length (suc n) base m h c =
      let j = add32 base n in
      let has = c n (omega arith) in
      omega (
        arith,
        length-remove j m has,
        consecutive-length n base (remove j m) (omega arith)
            (λ k l. still_there m j (add32 base k) has (c k (omega arith)) (ground arith)),
      )

-- The chunk after the point is not in flight, or is not abandoned.
pub data Stops (a : Association) (point : ℕ) : Type 0 where
  absent : get a.inflight_queue (add32 point 1) ≡ none → Stops a point
  kept :
      (c : ChunkPayloadData)
      → get a.inflight_queue (add32 point 1) ≡ some c
      → abandoned a.cells c ≡ false
      → Stops a point

-- An abandoned chunk in flight has this TSN.
abbrev pub IsAbandoned : Association → ℕ → Type 0
IsAbandoned a tsn =
    (c : ChunkPayloadData) × (get a.inflight_queue tsn ≡ some c) × (abandoned a.cells c ≡ true)

-- `n` abandoned chunks were passed.
pub record Skips (a : Association) (point n : ℕ) (r : ℕ) : Type 0 where
  pub passed : r ≡ add32 point n
  pub all_abandoned : (k : ℕ) → k < n → IsAbandoned a (add32 point (k + 1))

extend :
    (a : Association) (point n : ℕ)
    → IsAbandoned a (add32 point 1)
    → ((k : ℕ) → k < n → IsAbandoned a (add32 (add32 point 1) (k + 1)))
    → (k : ℕ) → k < suc n
    → IsAbandoned a (add32 point (k + 1))
extend a point n h f zero l = h
extend a point n h f (suc k) l =
    let e : add32 (add32 point 1) (k + 1) ≡ add32 point (suc k + 1) = omega arith in
    subst (IsAbandoned a) e (f k (omega arith))

skip_cases :
    (fuel : ℕ) (a : Association) (point : ℕ)
    → point < 2 ^ 32
    → (n : ℕ) × Skips a point n (skip_abandoned fuel a point)
      × ((n ≡ fuel) ⊎ Stops a (skip_abandoned fuel a point))
unfolding skip_abandoned
skip_cases zero a point w =
    (0, record { passed = omega arith; all_abandoned = λ k l. absurd (omega arith) }, inl refl)
skip_cases (suc fuel) a point w = elim (Option-cases (get a.inflight_queue (add32 point 1))) [
  | inl e ↦
      rw (e, skip_abandoned)
        (
          0,
          record { passed = omega arith; all_abandoned = λ k l. absurd (omega arith) },
          inr (absent e),
        )
  | inr (c, e) ↦ elim (Bool-cases (abandoned a.cells c)) [
    | inr f ↦
        rw (e, f, skip_abandoned)
          (
            0,
            record { passed = omega arith; all_abandoned = λ k l. absurd (omega arith) },
            inr (kept c e f),
          )
    | inl t ↦
        let (n, s, o) = skip_cases fuel a (add32 point 1) (omega arith) in
        let longer : Skips a point (suc n) (skip_abandoned fuel a (add32 point 1)) = record {
          passed = omega (arith, s.passed);
          all_abandoned = extend a point n (c, e, t) s.all_abandoned;
        } in
        rw (e, t, skip_abandoned)
          (suc n, longer, elim o [ inl f ↦ inl (ap suc f) | inr stops ↦ inr stops ])
  ]
]

in_flight :
    (a : Association) (tsn : ℕ)
    → IsAbandoned a tsn
    → contains_key tsn a.inflight_queue.chunk_map ≡ true
unfolding get
in_flight a tsn (c, e, t) = contains_key-lookup tsn c a.inflight_queue.chunk_map e

-- The loop cannot pass as many chunks as are in flight and go on.
last_one :
    (a : Association) (point r : ℕ)
    → length a.inflight_queue.chunk_map < 2 ^ 32
    → Skips a point (length a.inflight_queue.chunk_map) r
    → Stops a r
last_one a point r h s = elim (Option-cases (get a.inflight_queue (add32 r 1))) [
  | inl e ↦ absent e
  | inr (c, e) ↦ elim (Bool-cases (abandoned a.cells c)) [
    | inr f ↦ kept c e f
    | inl t ↦
        let n = length a.inflight_queue.chunk_map in
        let more =
          consecutive-length (suc n) (add32 point 1) a.inflight_queue.chunk_map (omega arith)
            (λ k l.
              in_flight a (add32 (add32 point 1) k)
                (row n c (c, e, t) s.passed s.all_abandoned k l)) in
        absurd (omega (arith, more))
  ]
]
  where
    row :
        (n : ℕ) (c : ChunkPayloadData)
        → IsAbandoned a (add32 r 1)
        → r ≡ add32 point n
        → ((k : ℕ) → k < n → IsAbandoned a (add32 point (k + 1)))
        → (k : ℕ) → k < suc n
        → IsAbandoned a (add32 (add32 point 1) k)
    row n c z p f k l = elim (Bool-cases (k == n)) [
      | inl e ↦
          let q : add32 r 1 ≡ add32 (add32 point 1) k = ground (arith, e, p) in
          subst (IsAbandoned a) q z
      | inr e ↦
          let q : add32 point (k + 1) ≡ add32 (add32 point 1) k = omega arith in
          subst (IsAbandoned a) q (f k (ground (arith, e)))
    ]

-- The loop over the abandoned chunks ends within as many rounds as there are chunks in flight (fewer
-- than 2^32): the point moves over abandoned chunks only, with wrap-around, and the chunk after it
-- is not in flight or not abandoned.
pub skip_abandoned-Stops :
    (a : Association) (point : ℕ)
    → point < 2 ^ 32
    → len a.inflight_queue < 2 ^ 32
    → (n : ℕ) × Skips a point n (skip_abandoned (len a.inflight_queue) a point)
      × Stops a (skip_abandoned (len a.inflight_queue) a point)
unfolding len
skip_abandoned-Stops a point w h =
    let (n, s, o) = skip_cases (length a.inflight_queue.chunk_map) a point w in
    (
      n,
      s,
      elim o [
        | inr stops ↦ stops
        | inl e ↦ last_one a point (skip_abandoned (length a.inflight_queue.chunk_map) a point) h (
            subst
              (λ k. Skips a point k (skip_abandoned (length a.inflight_queue.chunk_map) a point)) e
              s)
      ],
    )
