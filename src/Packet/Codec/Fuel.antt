-- ===== src/Packet/Codec/Fuel.antt =====
-- src/packet.rs: the loop over the chunks of a packet, told without fuel as a chain of rounds, and
-- that the loop on fuel is such a chain.
use sctp.Base.{
  ℕ, zero, suc, ◌+◌, ◌≤◌, ◌<◌, ◌≡◌, refl, sym, subst, true, false, Bool-cases, inl, inr, List, [],
  ◌∷◌, length, leb, ◌==◌, arith,
}
use sctp.Error.{Result, Error, ok, err, panicked, ◌>>=◌, err_parse_sctp_chunk_not_enough_data}
use sctp.Bytes.{Buf, slice_from}
use sctp.Sna.{get_padding_size}
use sctp.Chunk.Header.{index}
use sctp.Packet.{Chunk, value_length}
use sctp.Packet.Codec.{unmarshal_chunk, chunk_loop}

module _ (buf : Buf) (now : ℕ) (raw : List ℕ) where
  -- The chunk at an offset.
  unfoldable pub chunk_at : (fresh offset : ℕ) → Result Chunk
  chunk_at fresh offset = do
    ct ← index offset raw
    part ← slice_from offset raw
    unmarshal_chunk buf now fresh ct part

  -- Where the chunk behind begins.
  abbrev pub behind : ℕ → Chunk → ℕ
  behind offset c = offset + (4 + value_length c + get_padding_size (value_length c))

  -- The loop's rounds from an offset on, and the result they end with. Every chain is finite.
  pub data Runs : (fresh offset : ℕ) → Result (List Chunk) → Type 0 where
    at_end : {fresh offset : ℕ} → offset ≡ length raw → Runs fresh offset (ok [])
    too_short :
        {fresh offset : ℕ}
        → (offset == length raw) ≡ false
        → length raw < offset + 4
        → Runs fresh offset (err err_parse_sctp_chunk_not_enough_data)
    refused :
        {fresh offset : ℕ} (e : Error)
        → offset + 4 ≤ length raw
        → chunk_at fresh offset ≡ err e
        → Runs fresh offset (err e)
    aborted :
        {fresh offset : ℕ}
        → offset + 4 ≤ length raw
        → chunk_at fresh offset ≡ panicked
        → Runs fresh offset panicked
    onwards :
        {fresh offset : ℕ} (c : Chunk) (r : Result (List Chunk))
        → offset + 4 ≤ length raw
        → chunk_at fresh offset ≡ ok c
        → Runs (fresh + 2) (behind offset c) r
        → Runs fresh offset (r >>= λ chunks. ok (c ∷ chunks))

  bind_assoc :
      (ct : Result ℕ) (part : Result (List ℕ)) (parse : ℕ → List ℕ → Result Chunk)
      (g : Chunk → Result (List Chunk))
      → (ct >>= λ t. part >>= λ p. parse t p >>= g) ≡ ((ct >>= λ t. part >>= λ p. parse t p) >>= g)
  bind_assoc (ok t) (ok p) parse g = refl
  bind_assoc (ok t) (err e) parse g = refl
  bind_assoc (ok t) panicked parse g = refl
  bind_assoc (err e) part parse g = refl
  bind_assoc panicked part parse g = refl

  rest_of : (fuel fresh offset : ℕ) → Chunk → Result (List Chunk)
  rest_of fuel fresh offset c = chunk_loop buf now fuel (fresh + 2) (behind offset c) raw

  chunk_loop_round :
      (fuel fresh offset : ℕ)
      → (offset == length raw) ≡ false
      → leb (offset + 4) (length raw) ≡ true
      → chunk_loop buf now (suc fuel) fresh offset raw
        ≡ (chunk_at fresh offset >>= λ c. rest_of fuel fresh offset c >>= λ chunks. ok (c ∷ chunks))
  unfolding chunk_loop rest_of chunk_at
  chunk_loop_round fuel fresh offset e l =
      rw (e, chunk_loop)
        (rw l
          (bind_assoc (index offset raw) (slice_from offset raw) (unmarshal_chunk buf now fresh) _))

  chunk_loop_end :
      (fuel fresh offset : ℕ)
      → (offset == length raw) ≡ true
      → chunk_loop buf now (suc fuel) fresh offset raw ≡ ok []
  unfolding chunk_loop
  chunk_loop_end fuel fresh offset e = rw (e, chunk_loop) refl

  chunk_loop_short :
      (fuel fresh offset : ℕ)
      → (offset == length raw) ≡ false
      → leb (offset + 4) (length raw) ≡ false
      → chunk_loop buf now (suc fuel) fresh offset raw ≡ err err_parse_sctp_chunk_not_enough_data
  unfolding chunk_loop
  chunk_loop_short fuel fresh offset e l = rw (e, chunk_loop) (rw l refl)

  round-Runs :
      (fuel fresh offset : ℕ) (m : Result Chunk)
      → offset + 4 ≤ length raw
      → chunk_at fresh offset ≡ m
      → ((c : Chunk) → Runs (fresh + 2) (behind offset c) (rest_of fuel fresh offset c))
      → Runs fresh offset (m >>= λ c. rest_of fuel fresh offset c >>= λ chunks. ok (c ∷ chunks))
  round-Runs fuel fresh offset (ok c) l e rest = onwards c _ l e (rest c)
  round-Runs fuel fresh offset (err f) l e rest = refused f l e
  round-Runs fuel fresh offset panicked l e rest = aborted l e

  -- The loop over a packet's chunks ends, whatever the bytes are: with some fuel, and more of it than
  -- bytes behind the offset, its result is the end of a finite chain of rounds, each of which begins
  -- where the chunk before ends. Running out of fuel is never the result.
  pub chunk_loop-Runs :
      (fuel fresh offset : ℕ)
      → length raw < offset + fuel
      → 0 < fuel
      → Runs fresh offset (chunk_loop buf now fuel fresh offset raw)
  unfolding rest_of
  chunk_loop-Runs zero fresh offset h z = absurd (omega arith)
  chunk_loop-Runs (suc fuel) fresh offset h z = elim (Bool-cases (offset == length raw)) [
    | inl e ↦
        subst (Runs fresh offset) (sym (chunk_loop_end fuel fresh offset e)) (at_end (ground arith))
    | inr e ↦ elim (Bool-cases (leb (offset + 4) (length raw))) [
      | inr l ↦
          subst (Runs fresh offset) (sym (chunk_loop_short fuel fresh offset e l))
            (too_short e (ground arith))
      | inl l ↦ subst (Runs fresh offset) (sym (chunk_loop_round fuel fresh offset e l)) (
          round-Runs fuel fresh offset (chunk_at fresh offset) (ground arith) refl (λ c.
            chunk_loop-Runs fuel (fresh + 2) (behind offset c) (omega (arith, h))
              (ground (arith, h, l))))
    ]
  ]
