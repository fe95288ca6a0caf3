-- ===== src/Queue/Payload/Order.antt =====
-- `push` keeps the index of the payload queue in serial order when its TSNs lie within half the
-- circle ahead of one base, such as the cumulative TSN.
use sctp.Base.{
  ℕ, ◌+◌, ◌^◌, ◌≤◌, ◌<◌, ◌≡◌, ◌≢◌, List, [], ◌∷◌, ◌++◌, arith, Bool-cases, inl, inr, All, All-map,
  All-append, IsU32, ltb,
}
use sctp.Base.Assoc.{contains_key, count}
use sctp.Base.Sort.{Ascending, Distinct, sort_by, sort_by-Ascending, All-sort_by}
use sctp.Chunk.PayloadData.{ChunkPayloadData}
use sctp.Sna.{sna32lt, sna32lte}
use sctp.Sna.Order.{ahead32, sna32lt-ahead32}
use sctp.Queue.Payload.{PayloadQueue, push}
use sctp.Queue.Payload.Accounting.{IsConsistent}

-- A TSN within half the circle ahead of the base.
abbrev pub InWindow : ℕ → ℕ → Type 0
InWindow base t = IsU32 t × (ahead32 base t < 2 ^ 31)

pub record IsOrdered (base : ℕ) (q : PayloadQueue) : Type 0 where
  pub base_word : IsU32 base
  pub in_window : All (InWindow base) q.sorted
  pub ascending : Ascending (ahead32 base) q.sorted

-- The comparison agrees with the distance from the base.
less-agrees :
    (base : ℕ)
    → IsU32 base
    → (a b : ℕ) → InWindow base a
    → InWindow base b
    → sna32lt a b ≡ ltb (ahead32 base a) (ahead32 base b)
less-agrees base h a b wa wb = sna32lt-ahead32 base a b h wa.0 wb.0 wa.1 wb.1

count-zero : (k : ℕ) (ts : List ℕ) → count k ts ≡ 0 → All (λ t. t ≢ k) ts
count-zero k [] h = tt
count-zero k (t ∷ ts) h = (λ e. ground (arith, e), count-zero k ts (ground arith))

ahead32-injective :
    (base a b : ℕ) → IsU32 base → IsU32 a → IsU32 b → ahead32 base a ≡ ahead32 base b → a ≡ b
ahead32-injective base a b h ha hb e = omega arith

Distinct-snoc :
    (base t : ℕ) (ts : List ℕ)
    → IsU32 base
    → IsU32 t
    → All (InWindow base) ts
    → Ascending (ahead32 base) ts
    → All (λ u. u ≢ t) ts
    → Distinct (ahead32 base) (ts ++ t ∷ [])
Distinct-snoc base t [] h ht w a n = (tt, tt)
Distinct-snoc base t (u ∷ ts) h ht w a n = (
  All-append (λ v. ahead32 base u ≢ ahead32 base v) ts (t ∷ [])
      (All-map (λ v. ahead32 base u < ahead32 base v) (λ v. ahead32 base u ≢ ahead32 base v) ts
        (λ v lt e. omega arith) a.0)
      ((λ e. n.0 (ahead32-injective base u t h w.0.0 ht e)), tt),
  Distinct-snoc base t ts h ht w.1 a.1 n.1,
)

sort-IsOrdered :
    (base t : ℕ) (ts : List ℕ)
    → IsU32 base
    → InWindow base t
    → All (InWindow base) ts
    → Ascending (ahead32 base) ts
    → count t ts ≡ 0
    → All (InWindow base) (sort_by sna32lt (ts ++ t ∷ []))
      × Ascending (ahead32 base) (sort_by sna32lt (ts ++ t ∷ []))
sort-IsOrdered base t ts h wt w a n =
    let all = All-append (InWindow base) ts (t ∷ []) w (wt, tt) in
    (
      All-sort_by sna32lt (InWindow base) (ts ++ t ∷ []) all,
      sort_by-Ascending sna32lt (ahead32 base) (InWindow base) (less-agrees base h) (ts ++ t ∷ [])
          all (Distinct-snoc base t ts h wt.0 w a (count-zero t ts n)),
    )

-- `push` of a chunk within half the circle ahead of the base keeps the index in serial order.
pub push-IsOrdered :
    {q : PayloadQueue} {base : ℕ} (p : ChunkPayloadData) (cumulative_tsn : ℕ)
    → IsConsistent q
    → IsOrdered base q
    → InWindow base p.tsn
    → IsOrdered base (push q p cumulative_tsn).0
unfolding push
push-IsOrdered {q} {base} p cumulative_tsn v o w =
    elim (Bool-cases (contains_key p.tsn q.chunk_map)) [
      | inl old ↦
          rw old
            (record { base_word = o.base_word; in_window = o.in_window; ascending = o.ascending })
      | inr fresh ↦ elim (Bool-cases (sna32lte p.tsn cumulative_tsn)) [
        | inl late ↦
            rw (fresh, late)
              (record { base_word = o.base_word; in_window = o.in_window; ascending = o.ascending })
        | inr new ↦
            let s =
              sort-IsOrdered base p.tsn q.sorted o.base_word w o.in_window o.ascending
                (ground (arith, v.indexed p.tsn)) in
            rw (fresh, new) (record { base_word = o.base_word; in_window = s.0; ascending = s.1 })
      ]
    ]

ahead32_rebase :
    (base base' t : ℕ)
    → IsU32 base
    → IsU32 base'
    → IsU32 t
    → ahead32 base base' ≤ ahead32 base t
    → ahead32 base' t + ahead32 base base' ≡ ahead32 base t
ahead32_rebase base base' t h h' ht le = omega arith

-- The base can move up to any number that is not ahead of a queued TSN.
pub rebase-IsOrdered :
    {q : PayloadQueue} (base base' : ℕ)
    → IsU32 base'
    → All (λ t. ahead32 base base' ≤ ahead32 base t) q.sorted
    → IsOrdered base q
    → IsOrdered base' q
rebase-IsOrdered {q} base base' h below o = record {
  base_word = h;
  in_window = windows q.sorted below o.in_window;
  ascending = ascents q.sorted below o.in_window o.ascending;
}
  where
    windows :
        (ts : List ℕ)
        → All (λ t. ahead32 base base' ≤ ahead32 base t) ts
        → All (InWindow base) ts
        → All (InWindow base') ts
    windows [] b w = tt
    windows (t ∷ ts) b w = (
      (w.0.0, omega (arith, ahead32_rebase base base' t o.base_word h w.0.0 b.0)),
      windows ts b.1 w.1,
    )

    moved :
        (t : ℕ) (ts : List ℕ)
        → ahead32 base base' ≤ ahead32 base t
        → InWindow base t
        → All (λ t. ahead32 base base' ≤ ahead32 base t) ts
        → All (InWindow base) ts
        → All (λ u. ahead32 base t < ahead32 base u) ts
        → All (λ u. ahead32 base' t < ahead32 base' u) ts
    moved t [] bt wt b w a = tt
    moved t (u ∷ ts) bt wt b w a = (
      omega (
        arith,
        ahead32_rebase base base' t o.base_word h wt.0 bt,
        ahead32_rebase base base' u o.base_word h w.0.0 b.0,
      ),
      moved t ts bt wt b.1 w.1 a.1,
    )

    ascents :
        (ts : List ℕ)
        → All (λ t. ahead32 base base' ≤ ahead32 base t) ts
        → All (InWindow base) ts
        → Ascending (ahead32 base) ts
        → Ascending (ahead32 base') ts
    ascents [] b w a = tt
    ascents (t ∷ ts) b w a = (moved t ts b.0 w.0 b.1 w.1 a.0, ascents ts b.1 w.1 a.1)
