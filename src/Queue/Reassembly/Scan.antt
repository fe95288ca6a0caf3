-- ===== src/Queue/Reassembly/Scan.antt =====
-- What the scan of `find_complete_unordered_chunk_set` finds among the unordered chunks is a message.
use mathlib.Core.List.{append_assoc, append-nil}
use sctp.Base.{
  ◌⊎◌, ℕ, ◌+◌, ◌≡◌, refl, ◌∙◌, Bool, true, false, List, [], ◌∷◌, ◌++◌, none, some, arith, length,
  length-append, ◌==◌, add32, Bool-cases, Option-cases, inl, inr, subst,
}
use sctp.Chunk.PayloadData.{ChunkPayloadData}
use sctp.Queue.Reassembly.Fragments.{last_ends, contiguous}
use sctp.Queue.Reassembly.{ScanState, ScanStep, next, break, scan_step, scan, scan_start}

-- The TSN of the last chunk.
abbrev end_tsn : ChunkPayloadData → List ChunkPayloadData → ℕ
end_tsn c [] = c.tsn
end_tsn c (d ∷ ds) = end_tsn d ds

contiguous-snoc :
    (c : ChunkPayloadData) (ds : List ChunkPayloadData) (d : ChunkPayloadData)
    → contiguous c.tsn ds ≡ true
    → d.tsn ≡ add32 (end_tsn c ds) 1
    → (contiguous c.tsn (ds ++ d ∷ []) ≡ true)
      × (end_tsn c (ds ++ d ∷ []) ≡ d.tsn)
      × (last_ends c (ds ++ d ∷ []) ≡ d.ending_fragment)
unfolding contiguous last_ends
contiguous-snoc c [] d h e = ground arith
contiguous-snoc c (x ∷ ds) d h e = ground (arith, contiguous-snoc x ds d)

-- A run inside the chunks scanned so far, up to their end.
record Run (done : List ChunkPayloadData) (s : ScanState) (k : ℕ) : Type 0 where
  before : List ChunkPayloadData
  first : ChunkPayloadData
  rest : List ChunkPayloadData
  splits : done ≡ before ++ first ∷ rest
  starts : length before ≡ k
  counted : s.n_chunks ≡ length (first ∷ rest)
  begins : first.beginning_fragment ≡ true
  runs_on : contiguous first.tsn rest ≡ true
  ends_at : s.last_tsn ≡ end_tsn first rest

-- A complete run: a message, at the place that the state names.
pub record Found (all : List ChunkPayloadData) (s : ScanState) : Type 0 where
  pub before : List ChunkPayloadData
  pub first : ChunkPayloadData
  pub rest : List ChunkPayloadData
  pub after : List ChunkPayloadData
  pub splits : all ≡ (before ++ first ∷ rest) ++ after
  pub starts : s.start_idx ≡ some (length before)
  pub counted : s.n_chunks ≡ length (first ∷ rest)
  pub begins : first.beginning_fragment ≡ true
  pub runs_on : contiguous first.tsn rest ≡ true
  pub finishes : last_ends first rest ≡ true

abbrev Tracks : List ChunkPayloadData → ScanState → Type 0
Tracks done s = (k : ℕ) → s.start_idx ≡ some k → Run done s k

abbrev StepTracks : List ChunkPayloadData → ChunkPayloadData → ScanStep → Type 0
StepTracks done c (next s) = (s.found ≡ false) × Tracks (done ++ c ∷ []) s
StepTracks done c (break s) = (s.found ≡ true) × Found (done ++ c ∷ []) s

begun-Run :
    (done : List ChunkPayloadData) (c : ChunkPayloadData) (s : ScanState) (i : ℕ)
    → length done ≡ i
    → c.beginning_fragment ≡ true
    → s.start_idx ≡ some i
    → s.n_chunks ≡ 1
    → s.last_tsn ≡ c.tsn
    → (k : ℕ) → s.start_idx ≡ some k
    → Run (done ++ c ∷ []) s k
unfolding contiguous
begun-Run done c s i hi hb hs hn hl k e = record {
  before = done;
  first = c;
  rest = [];
  splits = refl;
  starts = ground arith;
  counted = ground arith;
  begins = hb;
  runs_on = refl;
  ends_at = hl;
}

grown-Run :
    (done : List ChunkPayloadData) (c : ChunkPayloadData) (s s' : ScanState) (k : ℕ)
    → Run done s k
    → c.tsn ≡ add32 s.last_tsn 1
    → s'.n_chunks ≡ s.n_chunks + 1
    → s'.last_tsn ≡ c.tsn
    → Run (done ++ c ∷ []) s' k
grown-Run done c s s' k r ht hn hl =
    let g = contiguous-snoc r.first r.rest c r.runs_on (ground arith) in
    record {
      before = r.before;
      first = r.first;
      rest = r.rest ++ c ∷ [];
      splits = rw r.splits (append_assoc r.before (r.first ∷ r.rest) (c ∷ []));
      starts = r.starts;
      counted = omega (arith, r.counted, hn, length-append r.rest (c ∷ []));
      begins = r.begins;
      runs_on = g.0;
      ends_at = rw g.1 hl;
    }

-- A run that its last chunk ends.
Run-Found :
    (done : List ChunkPayloadData) (s : ScanState) (k : ℕ)
    → (r : Run done s k) → s.start_idx ≡ some k
    → last_ends r.first r.rest ≡ true
    → Found done s
Run-Found done s k r e l = record {
  before = r.before;
  first = r.first;
  rest = r.rest;
  after = [];
  splits = rw append-nil r.splits;
  starts = rw r.starts e;
  counted = r.counted;
  begins = r.begins;
  runs_on = r.runs_on;
  finishes = l;
}

abbrev begun : ℕ → ScanState → ChunkPayloadData → Bool → ScanState
begun i s c f = record { start_idx = some i; n_chunks = 1; last_tsn = c.tsn; found = f }

abbrev grown : ScanState → ChunkPayloadData → Bool → ScanState
grown s c f = record s { last_tsn = c.tsn; n_chunks = s.n_chunks + 1; found = f }

-- The outcomes of a round.
scan_step_cases :
    (i : ℕ) (s : ScanState) (c : ChunkPayloadData)
    → s.found ≡ false
    → ((c.beginning_fragment ≡ true)
        × (c.ending_fragment ≡ true)
        × (scan_step i s c ≡ break (begun i s c true)))
      ⊎ ((c.beginning_fragment ≡ true) × (scan_step i s c ≡ next (begun i s c false)))
      ⊎ ((s.start_idx ≡ none) × (scan_step i s c ≡ next s))
      ⊎ (scan_step i s c ≡ next (record s { start_idx = none }))
      ⊎ ((k : ℕ) × (s.start_idx ≡ some k)
          × (c.tsn ≡ add32 s.last_tsn 1)
          × (((c.ending_fragment ≡ true) × (scan_step i s c ≡ break (grown s c true)))
              ⊎ (scan_step i s c ≡ next (grown s c false))))
unfolding scan_step
scan_step_cases i s c nf = elim (Bool-cases c.beginning_fragment) [
  | inl b ↦ elim (Bool-cases c.ending_fragment) [
    | inl e ↦ inl (b, e, ground arith)
    | inr e ↦ inr (inl (b, ground arith))
  ]
  | inr b ↦ elim (Option-cases s.start_idx) [
    | inl n ↦ inr (inr (inl (n, ground arith)))
    | inr (k, h) ↦ elim (Bool-cases (c.tsn == add32 s.last_tsn 1)) [
      | inl t ↦ elim (Bool-cases c.ending_fragment) [
        | inl e ↦ inr (inr (inr (inr (k, h, ground arith, inl (e, ground arith)))))
        | inr e ↦ inr (inr (inr (inr (k, h, ground arith, inr (ground arith)))))
      ]
      | inr t ↦ inr (inr (inr (inl (ground arith))))
    ]
  ]
]

scan_step-Tracks :
    (done : List ChunkPayloadData) (i : ℕ) (s : ScanState) (c : ChunkPayloadData)
    → length done ≡ i
    → s.found ≡ false
    → Tracks done s
    → StepTracks done c (scan_step i s c)
unfolding last_ends begun-Run grown-Run
scan_step-Tracks done i s c hi nf t = elim (scan_step_cases i s c nf) [
  | inl (b, e, q) ↦ rw q (
    refl,
    Run-Found (done ++ c ∷ []) (begun i s c true) i
        (begun-Run done c (begun i s c true) i hi b refl refl refl i refl) refl e,
  )
  | inr (inl (b, q)) ↦ rw q (refl, begun-Run done c (begun i s c false) i hi b refl refl refl)
  | inr (inr (inl (n, q))) ↦ rw q (nf, λ k e. cc)
  | inr (inr (inr (inl q))) ↦ rw q (nf, λ k e. cc)
  | inr (inr (inr (inr (k, h, ht, inl (e, q))))) ↦ rw q (
    refl,
    Run-Found (done ++ c ∷ []) (grown s c true) k
        (grown-Run done c s (grown s c true) k (t k h) ht refl refl) h
        ((contiguous-snoc (t k h).first (t k h).rest c (t k h).runs_on
            (ground (arith, (t k h).ends_at))).2
          ∙ e),
  )
  | inr (inr (inr (inr (k, h, ht, inr q)))) ↦
      rw q (refl, λ j g. grown-Run done c s (grown s c false) j (t j g) ht refl refl)
]

scan_next :
    (i : ℕ) (s s' : ScanState) (c : ChunkPayloadData) (cs : List ChunkPayloadData)
    → scan_step i s c ≡ next s'
    → scan i s (c ∷ cs) ≡ scan (i + 1) s' cs
unfolding scan
scan_next i s s' c cs e = rw (e, scan)

scan_break :
    (i : ℕ) (s r : ScanState) (c : ChunkPayloadData) (cs : List ChunkPayloadData)
    → scan_step i s c ≡ break r
    → scan i s (c ∷ cs) ≡ r
unfolding scan
scan_break i s r c cs e = rw (e, scan)

Found-append : {r : ScanState} (xs ys : List ChunkPayloadData) → Found xs r → Found (xs ++ ys) r
Found-append xs ys f = record {
  before = f.before;
  first = f.first;
  rest = f.rest;
  after = f.after ++ ys;
  splits = rw f.splits (append_assoc (f.before ++ f.first ∷ f.rest) f.after ys);
  starts = f.starts;
  counted = f.counted;
  begins = f.begins;
  runs_on = f.runs_on;
  finishes = f.finishes;
}

-- Follow one outcome: go on, or stop with what is found.
abbrev Leads : List ChunkPayloadData → List ChunkPayloadData → ℕ → ScanStep → Type 0
Leads done cs i (next s) =
    (s.found ≡ false)
    → Tracks done s
    → (scan i s cs).found ≡ true
    → Found (done ++ cs) (scan i s cs)
Leads done cs i (break r) = Unit {0}

scan_cons :
    (done : List ChunkPayloadData) (c : ChunkPayloadData) (cs : List ChunkPayloadData) (i : ℕ)
    (s : ScanState) (p : ScanStep)
    → scan_step i s c ≡ p
    → StepTracks done c p
    → Leads (done ++ c ∷ []) cs (i + 1) p
    → (scan i s (c ∷ cs)).found ≡ true
    → Found (done ++ c ∷ cs) (scan i s (c ∷ cs))
scan_cons done c cs i s (next s') e t later f = rw (scan_next i s s' c cs e) (
    subst (λ l. Found l (scan (i + 1) s' cs)) (append_assoc done (c ∷ []) cs)
      (later t.0 t.1 (rw (scan_next i s s' c cs e) at f)))
scan_cons done c cs i s (break r) e t later f =
    rw (scan_break i s r c cs e) (
      subst (λ l. Found l r) (append_assoc done (c ∷ []) cs) (Found-append (done ++ c ∷ []) cs t.1))

Leads-of :
    (done cs : List ChunkPayloadData) (i : ℕ) (p : ScanStep)
    → ((s : ScanState)
        → s.found ≡ false
        → Tracks done s
        → (scan i s cs).found ≡ true
        → Found (done ++ cs) (scan i s cs))
    → Leads done cs i p
Leads-of done cs i (next s) h = h s
Leads-of done cs i (break r) h = tt

scan-Found :
    (cs done : List ChunkPayloadData) (i : ℕ) (s : ScanState)
    → length done ≡ i
    → s.found ≡ false
    → Tracks done s
    → (scan i s cs).found ≡ true
    → Found (done ++ cs) (scan i s cs)
scan-Found [] done i s hi nf t f = unfold scan in cc
scan-Found (c ∷ cs) done i s hi nf t f =
    scan_cons done c cs i s (scan_step i s c) refl (scan_step-Tracks done i s c hi nf t)
      (Leads-of (done ++ c ∷ []) cs (i + 1) (scan_step i s c) (λ s'.
        scan-Found cs (done ++ c ∷ []) (i + 1) s' (omega (arith, length-append done (c ∷ [])))))
      f

-- A scan of all waiting chunks that stops at a find has found a message.
pub scan_start-Found :
    (cs : List ChunkPayloadData)
    → (scan 0 scan_start cs).found ≡ true
    → Found cs (scan 0 scan_start cs)
scan_start-Found cs = scan-Found cs [] 0 scan_start refl refl (λ k h. cc)
