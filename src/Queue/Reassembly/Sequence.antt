-- ===== src/Queue/Reassembly/Sequence.antt =====
-- The order of ordered messages by their stream sequence numbers, when the numbers in use lie
-- within half the circle ahead of one base, and that the insertion of a set keeps it.
use sctp.Base.{
  ℕ, ◌^◌, ◌<◌, ◌≡◌, ◌≢◌, Bool, List, [], ◌∷◌, ◌++◌, none, some, map, arith, ◌==◌, Option-cases,
  Bool-cases, inl, inr, All, All-map, All-append, IsU16, ltb,
}
use sctp.Base.Sort.{Ascending, Distinct, sort_by-Ascending, All-sort_by}
use sctp.Chunk.PayloadData.{ChunkPayloadData}
use sctp.Sna.Order.{ahead16, sna16lt-ahead16}
use sctp.Queue.Reassembly.Fragments.{ChunkSet, push_chunk}
use sctp.Queue.Reassembly.{ReassemblyQueue, push_to_set, sort_chunks_by_ssn, less_by_ssn}

ahead16-injective :
    (base a b : ℕ) → IsU16 base → IsU16 a → IsU16 b → ahead16 base a ≡ ahead16 base b → a ≡ b
ahead16-injective base a b h ha hb e = omega arith

abbrev pub InWindow16 : ℕ → ℕ → Type 0
InWindow16 base n = IsU16 n × (ahead16 base n < 2 ^ 15)

-- How far a set is ahead of the base.
abbrev pub place : ℕ → ChunkSet → ℕ
place base s = ahead16 base s.ssn

abbrev pub SetInWindow : ℕ → ChunkSet → Type 0
SetInWindow base s = InWindow16 base s.ssn

abbrev pub InOrder : ℕ → List ChunkSet → Type 0
InOrder base ss = All (SetInWindow base) ss × Ascending (place base) ss

pub record IsSequenced (base : ℕ) (q : ReassemblyQueue) : Type 0 where
  pub base_word : IsU16 base
  pub next_window : InWindow16 base q.next_ssn
  pub in_order : InOrder base q.ordered

same-above :
    (base k : ℕ) (ss ts : List ChunkSet)
    → map (λ (s : ChunkSet). s.ssn) ts ≡ map (λ (s : ChunkSet). s.ssn) ss
    → All (λ s. k < place base s) ss
    → All (λ s. k < place base s) ts
same-above base k ss [] e h = tt
same-above base k [] (t ∷ ts) e h = absurd (cc)
same-above base k (s ∷ ss) (t ∷ ts) e h =
    let head : t.ssn ≡ s.ssn = cc in (rw head h.0, same-above base k ss ts (cc) h.1)

-- Two lists of sets with the same numbers are in order together.
pub same-InOrder :
    (base : ℕ) (ss ts : List ChunkSet)
    → map (λ (s : ChunkSet). s.ssn) ts ≡ map (λ (s : ChunkSet). s.ssn) ss
    → InOrder base ss
    → InOrder base ts
same-InOrder base [] [] e h = h
same-InOrder base [] (t ∷ ts) e h = absurd (cc)
same-InOrder base (s ∷ ss) [] e h = absurd (cc)
same-InOrder base (s ∷ ss) (t ∷ ts) e h =
    let head : t.ssn ≡ s.ssn = cc in
    let rest : map (λ (s : ChunkSet). s.ssn) ts ≡ map (λ (s : ChunkSet). s.ssn) ss = cc in
    let later = same-InOrder base ss ts rest (h.0.1, h.1.1) in
    ((rw head h.0.0, later.0), (rw head (same-above base (place base s) ss ts rest h.1.0), later.1))

pub push_chunk-ssn : (s : ChunkSet) (c : ChunkPayloadData) → (push_chunk s c).0.ssn ≡ s.ssn
unfolding push_chunk
push_chunk-ssn s c = ground arith

pub push_to_set-ssns :
    (c : ChunkPayloadData) (ss ss' : List ChunkSet) (done : Bool)
    → push_to_set c ss ≡ some (ss', done)
    → map (λ (s : ChunkSet). s.ssn) ss' ≡ map (λ (s : ChunkSet). s.ssn) ss
unfolding push_to_set
push_to_set-ssns c [] ss' done e = cc
push_to_set-ssns c (s ∷ ss) ss' done e = elim (Bool-cases (s.ssn == c.stream_sequence_number)) [
  | inl h ↦ ground (arith, push_chunk-ssn s c)
  | inr h ↦ elim (Option-cases (push_to_set c ss)) [
    | inl n ↦ ground arith
    | inr ((ts, d), n) ↦ ground (arith, push_to_set-ssns c ss ts d n)
  ]
]

-- No set has the number of a chunk that meets none.
pub push_to_set-other :
    (c : ChunkPayloadData) (ss : List ChunkSet)
    → push_to_set c ss ≡ none
    → All (λ s. s.ssn ≢ c.stream_sequence_number) ss
unfolding push_to_set
push_to_set-other c [] e = tt
push_to_set-other c (s ∷ ss) e = elim (Bool-cases (s.ssn == c.stream_sequence_number)) [
  | inl h ↦ absurd (ground arith)
  | inr h ↦ elim (Option-cases (push_to_set c ss)) [
    | inl n ↦ (λ k. ground arith, push_to_set-other c ss n)
    | inr ((ts, d), n) ↦ absurd (ground arith)
  ]
]

Distinct-snoc :
    (base : ℕ) (ss : List ChunkSet) (t : ChunkSet)
    → IsU16 base
    → SetInWindow base t
    → InOrder base ss
    → All (λ s. s.ssn ≢ t.ssn) ss
    → Distinct (place base) (ss ++ t ∷ [])
Distinct-snoc base [] t hb wt o n = (tt, tt)
Distinct-snoc base (s ∷ ss) t hb wt o n = (
  All-append (λ u. place base s ≢ place base u) ss (t ∷ [])
      (All-map (λ u. place base s < place base u) (λ u. place base s ≢ place base u) ss
        (λ u lt e. omega arith) o.1.0)
      ((λ e. n.0 (ahead16-injective base s.ssn t.ssn hb o.0.0.0 wt.0 e)), tt),
  Distinct-snoc base ss t hb wt (o.0.1, o.1.1) n.1,
)

less_by_ssn-agrees :
    (base : ℕ)
    → IsU16 base
    → (a b : ChunkSet) → SetInWindow base a
    → SetInWindow base b
    → less_by_ssn a b ≡ ltb (place base a) (place base b)
unfolding less_by_ssn
less_by_ssn-agrees base h a b wa wb = sna16lt-ahead16 base a.ssn b.ssn h wa.0 wb.0 wa.1 wb.1

pub insert-InOrder :
    (base : ℕ) (ss : List ChunkSet) (t : ChunkSet)
    → IsU16 base
    → SetInWindow base t
    → InOrder base ss
    → All (λ s. s.ssn ≢ t.ssn) ss
    → InOrder base (sort_chunks_by_ssn (ss ++ t ∷ []))
unfolding sort_chunks_by_ssn
insert-InOrder base ss t hb wt o n =
    let all = All-append (SetInWindow base) ss (t ∷ []) o.0 (wt, tt) in
    (
      All-sort_by less_by_ssn (SetInWindow base) (ss ++ t ∷ []) all,
      sort_by-Ascending less_by_ssn (place base) (SetInWindow base) (less_by_ssn-agrees base hb)
          (ss ++ t ∷ []) all (Distinct-snoc base ss t hb wt o n),
    )
