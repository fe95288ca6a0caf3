-- ===== src/Stream/Packetize.antt =====
-- `packetize` of src/stream/mod.rs cuts a message into fragments: what they hold together, their
-- flags and their sizes.
use sctp.Base.{
  ℕ, zero, suc, ◌+◌, ◌-◌, ◌≤◌, ◌<◌, ◌≡◌, refl, Bool, true, false, not, ◌&&◌, List, [], ◌∷◌, ◌++◌,
  some, if◌then◌else◌, length, take, drop, min, ◌==◌, is_empty, All, ap, sym, ◌∙◌, arith, add16,
  take-append-drop, length-drop, length-take, subst,
}
use sctp.Chunk.PayloadData.{ChunkPayloadData, PayloadProtocolIdentifier}
use sctp.Queue.Reassembly.Bytes.{payload}
use sctp.Stream.{
  Stream, Shared, packetize, packetize_loop, count_message, new_flags, is_dcep, fragment,
}

-- The first chunk alone begins a message, when `b`, and the last one alone ends it.
abbrev pub Framed : Bool → List ChunkPayloadData → Type 0
Framed b [] = Unit {0}
Framed b (c ∷ cs) = (c.beginning_fragment ≡ b) × (c.ending_fragment ≡ is_empty cs) × Framed false cs

-- What the fragments of one message share, and how long each is.
pub record IsFragment (s : Stream) (ppi : PayloadProtocolIdentifier) (unordered : Bool) (cell : ℕ)
    (c : ChunkPayloadData) : Type 0 where
  pub same_stream : c.stream_identifier ≡ s.stream_identifier
  pub same_number : c.stream_sequence_number ≡ s.sequence_number
  pub same_protocol : c.payload_type ≡ ppi
  pub same_order : c.unordered ≡ unordered
  pub shared_abandoned : c.abandoned_cell ≡ cell
  pub shared_inflight : c.all_inflight_cell ≡ suc cell
  pub not_empty : 0 < length c.user_data
  pub fits : length c.user_data ≤ s.max_payload_size

pub record IsCut (s : Stream) (ppi : PayloadProtocolIdentifier) (unordered : Bool) (cell : ℕ)
    (b : Bool) (raw : List ℕ) (cs : List ChunkPayloadData) : Type 0 where
  pub whole : payload cs ≡ raw
  pub framed : Framed b cs
  pub fragments : All (IsFragment s ppi unordered cell) cs
  pub some_fragment : is_empty cs ≡ (length raw == 0)

drop-nil : {A : Type 0} (k : ℕ) → drop {A = A} k [] ≡ []
drop-nil zero = refl
drop-nil (suc k) = refl

drop-drop : {A : Type 0} (n i : ℕ) (xs : List A) → drop n (drop i xs) ≡ drop (i + n) xs
drop-drop n zero xs = let e : n ≡ 0 + n = omega arith in ap (λ k. drop k xs) e
drop-drop n (suc i) [] = drop-nil n ∙ sym (drop-nil (suc i + n))
drop-drop n (suc i) (x ∷ xs) =
    let e : suc (i + n) ≡ suc i + n = omega arith in drop-drop n i xs ∙ ap (λ k. drop k (x ∷ xs)) e

module _ (s : Stream) (ppi : PayloadProtocolIdentifier) (u : Bool) (cell : ℕ) where
  IsCut-nil : (b : Bool) (raw : List ℕ) → length raw ≡ 0 → IsCut s ppi u cell b raw []
  IsCut-nil b [] h = record { whole = refl; framed = tt; fragments = tt; some_fragment = refl }
  IsCut-nil b (x ∷ raw) h = absurd (omega arith)

  IsCut-cons :
      (b : Bool) (raw : List ℕ) (size : ℕ) (cs : List ChunkPayloadData)
      → 0 < size
      → size ≤ s.max_payload_size
      → size ≤ length raw
      → IsCut s ppi u cell false (drop size raw) cs
      → IsCut s ppi u cell b raw (
          fragment s.stream_identifier s.sequence_number ppi u
            (take size raw)
            b
            (length raw - size == 0)
            cell
            (suc cell)
          ∷ cs)
  IsCut-cons b raw size cs p m f k = record {
    whole = ap (◌++◌ (take size raw)) k.whole ∙ take-append-drop size raw;
    framed = (refl, rw (k.some_fragment, length-drop size raw) refl, k.framed);
    fragments = (
      record {
        same_stream = refl;
        same_number = refl;
        same_protocol = refl;
        same_order = refl;
        shared_abandoned = refl;
        shared_inflight = refl;
        not_empty = omega (arith, length-take size raw);
        fits = omega (arith, length-take size raw);
      },
      k.fragments,
    );
    some_fragment = ground arith;
  }

  abbrev next_fragment : List ℕ → ℕ → ℕ → ℕ → ChunkPayloadData
  next_fragment raw i size remaining =
      fragment s.stream_identifier s.sequence_number ppi u (take size (drop i raw)) (i == 0)
        (remaining - size == 0) cell (suc cell)

  packetize_loop-suc :
      (fuel : ℕ) (raw : List ℕ) (i r : ℕ) (cs : List ChunkPayloadData)
      → packetize_loop fuel s ppi u cell raw
          (i + min s.max_payload_size (suc r))
          (suc r - min s.max_payload_size (suc r))
        ≡ some cs
      → packetize_loop (suc fuel) s ppi u cell raw i (suc r)
        ≡ some (next_fragment raw i (min s.max_payload_size (suc r)) (suc r) ∷ cs)
  unfolding packetize_loop
  packetize_loop-suc fuel raw i r cs e = rw e (ground arith)

  not_zero : (i size : ℕ) → 0 < size → (i + size == 0) ≡ false
  not_zero i size h = ground arith

  -- The loop ends on fuel above the bytes that remain.
  packetize_loop_lem :
      (fuel : ℕ) (raw : List ℕ) (i remaining : ℕ)
      → 0 < s.max_payload_size
      → remaining < fuel
      → i + remaining ≡ length raw
      → (cs : List ChunkPayloadData) × (packetize_loop fuel s ppi u cell raw i remaining ≡ some cs)
        × IsCut s ppi u cell (i == 0) (drop i raw) cs
  unfolding packetize_loop
  packetize_loop_lem zero raw i remaining m f h = absurd (omega arith)
  packetize_loop_lem (suc fuel) raw i zero m f h =
      ([], refl, IsCut-nil (i == 0) (drop i raw) (omega (arith, length-drop i raw)))
  packetize_loop_lem (suc fuel) raw i (suc r) m f h =
      let size = min s.max_payload_size (suc r) in
      let left : length (drop i raw) ≡ suc r = omega (arith, length-drop i raw) in
      let (cs, e, k) =
        packetize_loop_lem fuel raw (i + size) (suc r - size) m (omega arith) (omega arith) in
      (
        _,
        packetize_loop-suc fuel raw i r cs e,
        subst (λ n. IsCut s ppi u cell (i == 0) (drop i raw) (next_fragment raw i size n ∷ cs)) left
            (IsCut-cons (i == 0) (drop i raw) size cs (omega arith) (omega arith) (omega arith) (
              rw (drop-drop size i raw) (
                subst (λ b. IsCut s ppi u cell b (drop (i + size) raw) cs)
                  (not_zero i size (omega arith)) k))),
      )

-- The class in which a message goes out: a channel's control messages are always ordered.
abbrev pub goes_unordered : Stream → PayloadProtocolIdentifier → Bool
goes_unordered s ppi = not (is_dcep ppi) && s.unordered

count_message-sequence_number :
    (s : Stream) (u : Bool) (n : ℕ)
    → (count_message s u n).sequence_number
      ≡ (if u then s.sequence_number else add16 s.sequence_number 1)
unfolding count_message
count_message-sequence_number s true n = refl
count_message-sequence_number s false n = refl

-- `packetize` ends and cuts the message in order into non-empty fragments of at most
-- `max_payload_size` bytes (not 0), the first alone marked as beginning and the last alone as
-- ending, that share the stream, its number, the class and the two flags' cells; the stream then
-- has counted the message.
pub packetize_lem :
    (s : Stream) (h : Shared) (raw : List ℕ) (ppi : PayloadProtocolIdentifier)
    → 0 < s.max_payload_size
    → (cs : List ChunkPayloadData) × (packetize s h raw ppi
        ≡ some (cs, count_message s (goes_unordered s ppi) (length raw), new_flags h))
      × IsCut s ppi (goes_unordered s ppi) h.next_cell true raw cs
unfolding packetize
packetize_lem s h raw ppi m =
    let (cs, e, k) =
      packetize_loop_lem s ppi (goes_unordered s ppi) h.next_cell (length raw + 1) raw 0
        (length raw) m (omega arith) (omega arith) in
    (cs, rw (e, packetize) refl, k)
