-- ===== src/Association/Sack/Window.antt =====
-- The congestion window in src/association/association_internal.rs: how far a SACK moves it, and
-- what the loss of a chunk does to it.
use sctp.Base.{
  ℕ, zero, suc, ◌+◌, ◌*◌, ◌/◌, ◌≤◌, ◌<◌, ◌%◌, ◌^◌, ◌≡◌, ◌⊎◌, refl, Bool, true, false, not, ◌&&◌,
  ◌||◌, if◌then◌else◌, arith, Bool-cases, Option-cases, inl, inr, add32, sub32, min, max, ltb, ◌==◌,
  sym, ◌∙◌,
}
use sctp.Error.{Result, ok, err, panicked}
use sctp.Sna.{sna32lt}
use sctp.Chunk.PayloadData.{abandoned}
use sctp.Queue.Payload.{get_mut}
use sctp.Queue.Payload
use sctp.Queue.Pending
use sctp.Association.Internal.{Association}
use sctp.Association.Sack.{
  and_then, grow_cwnd, mark_missing, mark_loop, ask_retransmit, process_fast_retransmission,
  enter_fast_recovery, miss,
}

-- The control of congestion as it was.
pub record IsSameWindow (a b : Association) : Type 0 where
  pub same_cwnd : b.cwnd ≡ a.cwnd
  pub same_ssthresh : b.ssthresh ≡ a.ssthresh
  pub same_recovery : b.in_fast_recovery ≡ a.in_fast_recovery
  pub same_exit : b.fast_recover_exit_point ≡ a.fast_recover_exit_point
  pub still_retransmits : a.will_retransmit_fast ≡ true → b.will_retransmit_fast ≡ true

-- Fast recovery begun once: the window is half of what it was, and at least four packets.
pub record IsHalved (a b : Association) (htna : ℕ) : Type 0 where
  pub was_out : a.in_fast_recovery ≡ false
  pub now_in : b.in_fast_recovery ≡ true
  pub half : b.cwnd ≡ max (a.cwnd / 2) ((4 * a.mtu) % 2 ^ 32)
  pub threshold : b.ssthresh ≡ b.cwnd
  pub exit : b.fast_recover_exit_point ≡ htna
  pub retransmits : b.will_retransmit_fast ≡ true

abbrev pub KeepsOrHalves : Association → Association → ℕ → Type 0
KeepsOrHalves a b htna = (b.mtu ≡ a.mtu) × (IsSameWindow a b ⊎ IsHalved a b htna)

same : (a : Association) (htna : ℕ) → KeepsOrHalves a a htna
same a htna = (
  refl,
  inl (record {
    same_cwnd = refl;
    same_ssthresh = refl;
    same_recovery = refl;
    same_exit = refl;
    still_retransmits = λ w. w;
  }),
)

marked : Association → ℕ → Association
marked a tsn = record a { inflight_queue = get_mut a.inflight_queue tsn miss }

mark_missing_cases :
    (htna tsn : ℕ) (a : Association)
    → ((mark_missing htna tsn a).0 ≡ a)
      ⊎ ((mark_missing htna tsn a).0 ≡ marked a tsn)
      ⊎ ((a.in_fast_recovery ≡ false)
          × ((mark_missing htna tsn a).0 ≡ enter_fast_recovery (marked a tsn) htna))
unfolding mark_missing marked
mark_missing_cases htna tsn a = elim (Option-cases (Payload.get a.inflight_queue tsn)) [
  | inl n ↦ inl (ground arith)
  | inr (c, n) ↦
      elim (Bool-cases (not c.acked && not (abandoned a.cells c) && ltb c.miss_indicator 3)) [
        | inr k ↦ inl (ground arith)
        | inl k ↦ elim (Bool-cases ((c.miss_indicator + 1 == 3) && not a.in_fast_recovery)) [
          | inr l ↦ inr (inl (ground arith))
          | inl l ↦ inr (inr (ground arith, ground arith))
        ]
      ]
]

mark_missing-window :
    (htna tsn : ℕ) (a : Association) → KeepsOrHalves a (mark_missing htna tsn a).0 htna
unfolding marked enter_fast_recovery
mark_missing-window htna tsn a = elim (mark_missing_cases htna tsn a) [
  | inl e ↦ rw e (same a htna)
  | inr (inl e) ↦ rw e (
    refl,
    inl (record {
      same_cwnd = refl;
      same_ssthresh = refl;
      same_recovery = refl;
      same_exit = refl;
      still_retransmits = λ w. w;
    }),
  )
  | inr (inr (o, e)) ↦ rw e (
    refl,
    inr (record {
      was_out = o;
      now_in = refl;
      half = refl;
      threshold = refl;
      exit = refl;
      retransmits = refl;
    }),
  )
]

trans :
    (a b c : Association) (htna : ℕ)
    → KeepsOrHalves a b htna
    → KeepsOrHalves b c htna
    → KeepsOrHalves a c htna
trans a b c htna (m, inl p) (n, inl q) = (
  n ∙ m,
  inl (record {
    same_cwnd = q.same_cwnd ∙ p.same_cwnd;
    same_ssthresh = q.same_ssthresh ∙ p.same_ssthresh;
    same_recovery = q.same_recovery ∙ p.same_recovery;
    same_exit = q.same_exit ∙ p.same_exit;
    still_retransmits = λ w. q.still_retransmits (p.still_retransmits w);
  }),
)
trans a b c htna (m, inl p) (n, inr q) = (
  n ∙ m,
  inr (record {
    was_out = sym p.same_recovery ∙ q.was_out;
    now_in = q.now_in;
    half = omega (arith, q.half, p.same_cwnd, m);
    threshold = q.threshold;
    exit = q.exit;
    retransmits = q.retransmits;
  }),
)
trans a b c htna (m, inr p) (n, inr q) = absurd (cc)
trans a b c htna (m, inr p) (n, inl q) = (
  n ∙ m,
  inr (record {
    was_out = p.was_out;
    now_in = q.same_recovery ∙ p.now_in;
    half = q.same_cwnd ∙ p.half;
    threshold = q.same_ssthresh ∙ p.threshold ∙ sym q.same_cwnd;
    exit = q.same_exit ∙ p.exit;
    retransmits = q.still_retransmits p.retransmits;
  }),
)

and_then-window :
    (a : Association) (htna : ℕ) (r : Association × Result (Unit {0}))
    (f : Association → Association × Result (Unit {0}))
    → KeepsOrHalves a r.0 htna
    → ((b : Association) → KeepsOrHalves a b htna → KeepsOrHalves a (f b).0 htna)
    → KeepsOrHalves a (and_then r f).0 htna
and_then-window a htna (b, ok _) f k l = l b k
and_then-window a htna (b, err e) f k l = k
and_then-window a htna (b, panicked) f k l = k

mark_loop-window :
    (fuel htna max_tsn tsn : ℕ) (a : Association)
    → KeepsOrHalves a (mark_loop fuel htna max_tsn tsn a).0 htna
unfolding mark_loop
mark_loop-window zero htna max_tsn tsn a = same a htna
mark_loop-window (suc fuel) htna max_tsn tsn a = elim (Bool-cases (sna32lt tsn max_tsn)) [
  | inr e ↦ rw (e, mark_loop) (same a htna)
  | inl e ↦
      rw (e, mark_loop)
        (and_then-window a htna (mark_missing htna tsn a)
          (mark_loop fuel htna max_tsn (add32 tsn 1)) (mark_missing-window htna tsn a)
          (λ b k. trans a b _ htna k (mark_loop-window fuel htna max_tsn (add32 tsn 1) b)))
]

ask_retransmit-window :
    (a b : Association) (htna : ℕ) (advanced : Bool)
    → KeepsOrHalves a b htna
    → KeepsOrHalves a (ask_retransmit advanced b) htna
unfolding ask_retransmit
ask_retransmit-window a b htna advanced k = elim (Bool-cases (b.in_fast_recovery && advanced)) [
  | inr e ↦ rw e k
  | inl e ↦ trans a b _ htna k (
      rw e (
        refl,
        inl (record {
          same_cwnd = refl;
          same_ssthresh = refl;
          same_recovery = refl;
          same_exit = refl;
          still_retransmits = λ w. refl;
        }),
      ))
]

-- Whatever a SACK reports missing, and however the pass ends, it begins fast recovery at most once:
-- the congestion window and the threshold are untouched, or recovery was off and is now on, with
-- both set to half the window or four packets, the exit point at the highest TSN newly
-- acknowledged, and a retransmission asked for.
pub process_fast_retransmission-window :
    (a : Association) (cum htna : ℕ) (advanced : Bool)
    → KeepsOrHalves a (process_fast_retransmission a cum htna advanced).0 htna
unfolding process_fast_retransmission
process_fast_retransmission-window a cum htna advanced =
    let max_tsn =
      if not a.in_fast_recovery then htna else add32 (add32 cum (Payload.len a.inflight_queue)) 1 in
    let fuel = sub32 max_tsn (add32 cum 1) in
    elim (Bool-cases (not a.in_fast_recovery || advanced)) [
      | inr e ↦ rw e (ask_retransmit-window a a htna advanced (same a htna))
      | inl e ↦ rw e (
          and_then-window a htna (mark_loop fuel htna max_tsn (add32 cum 1) a)
            (λ b. (ask_retransmit advanced b, ok tt))
            (mark_loop-window fuel htna max_tsn (add32 cum 1) a)
            (λ b k. ask_retransmit-window a b htna advanced k))
    ]

-- An acknowledgement of `n` bytes never shrinks the window; slow start adds at most the bytes
-- acknowledged and at most doubles it, congestion avoidance adds at most one packet, and with
-- nothing pending the window stays, as long as these sums fit in 32 bits.
pub grow_cwnd-bounds :
    (a : Association) (n : ℕ)
    → a.cwnd + a.cwnd < 2 ^ 32
    → a.cwnd + a.mtu < 2 ^ 32
    → (a.cwnd ≤ (grow_cwnd a n).cwnd)
      × (a.cwnd ≤ a.ssthresh → (grow_cwnd a n).cwnd ≤ a.cwnd + min n a.cwnd)
      × (a.ssthresh < a.cwnd → (grow_cwnd a n).cwnd ≤ a.cwnd + a.mtu)
      × (Pending.len a.pending_queue ≡ 0 → (grow_cwnd a n).cwnd ≡ a.cwnd)
unfolding grow_cwnd
grow_cwnd-bounds a n h k = (ground arith, λ s. ground arith, λ s. ground arith, λ s. ground arith)
