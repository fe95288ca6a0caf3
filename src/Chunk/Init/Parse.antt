-- ===== src/Chunk/Init/Parse.antt =====
-- src/chunk/chunk_init.rs: when the parser aborts, and what `check` lets through.
use sctp.Base.{
  ℕ, zero, suc, ◌+◌, ◌-◌, ◌^◌, ◌≤◌, ◌<◌, ◌≡◌, ◌↔◌, refl, ap, ◌∙◌, subst, take, drop, length-take,
  length-drop, List, length, leb, ltb, ◌==◌, ◌||◌, true, arith, inl, inr, Bool-cases, le→leb,
  lt→leb, lt→ltb, ltb→lt,
}
use sctp.Error.{ok, panicked}
use sctp.Error.Outcomes.{Safe, guard-Safe, >>=-Safe}
use sctp.Bytes.{Buf, slice, IsLawful}
use sctp.Bytes.Reads.{read-Safe, slice-Safe}
use sctp.Sna.{get_padding_size}
use sctp.Param.Values.{Param}
use sctp.Param.Values
use sctp.Param.Build.{build_param}
use sctp.Param.Build.Safety as Build
use sctp.Chunk.Header
use sctp.Chunk.Header.{ChunkHeader}
use sctp.Chunk.Header.Reads.{Fits, unmarshal-Safe}
use sctp.Chunk.Init.{ChunkInit, param_loop, unmarshal, check}

param_loop-Safe :
    (buf : Buf)
    → IsLawful buf
    → (fuel remaining offset finish : ℕ) (raw : List ℕ) → remaining < fuel
    → (4 < remaining → offset + remaining ≡ length raw)
    → finish ≤ length raw
    → length raw ≤ finish + 4
    → Safe (λ params. Unit {0}) (param_loop buf fuel remaining offset finish raw)
unfolding param_loop
param_loop-Safe buf law zero remaining offset finish raw h i f l = absurd (omega arith)
param_loop-Safe buf law (suc fuel) remaining offset finish raw h i f l =
    elim (Bool-cases (ltb 4 remaining)) [
      | inr b ↦ rw (b, param_loop) tt
      | inl b ↦
          rw (b, param_loop)
            (slice-Safe Q offset finish raw _ (within b) f (λ part len.
              >>=-Safe Q (Build.Fits part) (build_param buf part) _
                (Build.build_param-Safe buf law part)
                (λ p e q.
                  let lpp =
                    4 + Values.value_length p + get_padding_size (4 + Values.value_length p) in
                  >>=-Safe Q (λ (params : List Param). Unit {0})
                    (param_loop buf fuel (remaining - lpp) (offset + lpp) finish raw) _
                    (param_loop-Safe buf law fuel (remaining - lpp) (offset + lpp) finish raw
                      (ground arith) (λ more. onwards b lpp more) f l)
                    (λ params e2 q2. tt))))
    ]
  where
    Q : List Param → Type 0
    Q params = Unit

    within : ltb 4 remaining ≡ true → offset ≤ finish
    within b = ground (arith, i (ltb→lt 4 remaining b))

    onwards :
        ltb 4 remaining ≡ true
        → (lpp : ℕ) → 4 < remaining - lpp
        → offset + lpp + (remaining - lpp) ≡ length raw
    onwards b lpp more = omega (arith, i (ltb→lt 4 remaining b))

-- An INIT or INIT ACK chunk that ends its buffer, up to four bytes, is parsed without an abort, and
-- the loop over its parameters ends.
pub unmarshal_alone-Safe :
    (buf : Buf)
    → IsLawful buf
    → (raw : List ℕ) (h : ChunkHeader) → Header.unmarshal buf raw ≡ ok h
    → length raw ≤ 8 + h.value_length
    → Safe (λ c. (16 ≤ h.value_length) × (h.flags ≡ 0)) (unmarshal buf raw)
unfolding unmarshal
unmarshal_alone-Safe buf law raw h e alone = rw e (
    guard-Safe Q _ _ _ (λ (t : ((h.typ == 1) || (h.typ == 2)) ≡ true).
      guard-Safe Q _ _ _ (λ (l : leb 16 h.value_length ≡ true).
        guard-Safe Q _ _ _ (λ (z : (h.flags == 0) ≡ true).
          slice-Safe Q 4 (4 + h.value_length) raw _ (omega arith) fits (λ reader len.
            read-Safe Q 4 (2 ^ 32) _ _ law.u32 12 reader _ (ground arith) (λ a r1 l1.
              read-Safe Q 4 (2 ^ 32) _ _ law.u32 8 r1 _ (ground arith) (λ b r2 l2.
                read-Safe Q 2 (2 ^ 16) _ _ law.u16 6 r2 _ (ground arith) (λ c r3 l3.
                  read-Safe Q 2 (2 ^ 16) _ _ law.u16 4 r3 _ (ground arith) (λ d r4 l4.
                    read-Safe Q 4 (2 ^ 32) _ _ law.u32 0 r4 _ (ground arith) (λ t r5 l5.
                      >>=-Safe Q (λ (params : List Param). Unit {0})
                        (param_loop buf (length raw - 20 + 1) (length raw - 20) 20
                          (4 + h.value_length) raw)
                        _
                        (param_loop-Safe buf law (length raw - 20 + 1) (length raw - 20) 20
                          (4 + h.value_length) raw (omega arith) (λ more. omega arith) fits
                          (omega arith))
                        (λ params e2 q. ground arith)))))))))))
  where
    Q : ChunkInit → Type 0
    Q c = (16 ≤ h.value_length) × (h.flags ≡ 0)

    fits : 4 + h.value_length ≤ length raw
    fits = subst (Safe (Fits raw)) e (unmarshal-Safe buf law raw)

slice_inside :
    (start finish : ℕ) (raw : List ℕ)
    → start ≤ finish
    → finish ≤ length raw
    → (part : List ℕ) × (slice start finish raw ≡ ok part) × (length part ≡ finish - start)
unfolding slice
slice_inside start finish raw h g = (
  take (finish - start) (drop start raw),
  rw (le→leb start finish h, le→leb finish (length raw) g) refl,
  omega (arith, length-take (finish - start) (drop start raw), length-drop start raw),
)

slice_backwards :
    (start finish : ℕ) (raw : List ℕ) → finish < start → slice start finish raw ≡ panicked
unfolding slice
slice_backwards start finish raw h = rw (lt→leb start finish h) refl

-- The loop's second round slices a range that ends before it begins.
param_loop_panics :
    (buf : Buf) (fuel remaining offset finish : ℕ) (raw part : List ℕ) (p : Param)
    → slice offset finish raw ≡ ok part
    → build_param buf part ≡ ok p
    → finish < offset + (4 + Values.value_length p + get_padding_size (4 + Values.value_length p))
    → 4 + (4 + Values.value_length p + get_padding_size (4 + Values.value_length p)) < remaining
    → param_loop buf (suc (suc fuel)) remaining offset finish raw ≡ panicked
unfolding param_loop
param_loop_panics buf fuel remaining offset finish raw part p s b f r =
    rw (lt→ltb 4 remaining (omega arith), param_loop)
      (rw s (
        rw b (
          rw
            (
              lt→ltb 4
                  (remaining
                    - (4 + Values.value_length p + get_padding_size (4 + Values.value_length p)))
                  (omega arith),
              param_loop,
            )
            (rw
              (slice_backwards
                (offset
                  + (4 + Values.value_length p + get_padding_size (4 + Values.value_length p)))
                finish raw f)
              refl))))

-- A chunk with one parameter that fills its value, whose length is not a multiple of four: the
-- parser skips the padding too, and aborts when more than four bytes follow, as when the chunk is
-- bundled with another.
pub unmarshal_bundled_panics :
    (buf : Buf)
    → IsLawful buf
    → (raw : List ℕ) (h : ChunkHeader) (part : List ℕ) (p : Param) → Header.unmarshal buf raw ≡ ok h
    → ((h.typ == 1) || (h.typ == 2)) ≡ true
    → h.flags ≡ 0
    → slice 20 (4 + h.value_length) raw ≡ ok part
    → build_param buf part ≡ ok p
    → h.value_length ≡ 20 + Values.value_length p
    → 0 < get_padding_size (4 + Values.value_length p)
    → 4 + h.value_length + get_padding_size (4 + Values.value_length p) + 4 < length raw
    → unmarshal buf raw ≡ panicked
unfolding unmarshal
unmarshal_bundled_panics buf law raw h part p e t z s b v pad more =
    let (reader, sl, len) = value_slice in
    let (a, e1) = law.u32.get_enough reader (omega arith) in
    let (w, e2) = law.u32.get_enough (drop 4 reader) (omega (arith, length-drop 4 reader)) in
    let (o, e3) =
      law.u16.get_enough (drop 4 (drop 4 reader))
        (omega (arith, length-drop 4 reader, length-drop 4 (drop 4 reader))) in
    let (i, e4) = law.u16.get_enough (drop 2 (drop 4 (drop 4 reader))) (
      omega (
        arith,
        length-drop 4 reader,
        length-drop 4 (drop 4 reader),
        length-drop 2 (drop 4 (drop 4 reader)),
      )) in
    let (n, e5) = law.u32.get_enough (drop 2 (drop 2 (drop 4 (drop 4 reader)))) (
      omega (
        arith,
        length-drop 4 reader,
        length-drop 4 (drop 4 reader),
        length-drop 2 (drop 4 (drop 4 reader)),
        length-drop 2 (drop 2 (drop 4 (drop 4 reader))),
      )) in
    rw e (
      rw t (
        rw (le→leb 16 h.value_length (omega arith)) (
          rw z (
            rw sl (
              rw e1 (
                rw e2 (
                  rw e3 (
                    rw e4 (
                      rw e5 (
                        rw
                          (ap (λ k. param_loop buf k (length raw - 20) 20 (4 + h.value_length) raw)
                              {x = length raw - 20 + 1} {y = suc (suc (length raw - 21))}
                              (omega arith)
                            ∙ param_loop_panics buf (length raw - 21) (length raw - 20) 20
                                (4 + h.value_length) raw part p s b (omega arith) (omega arith))
                          refl))))))))))
  where
    fits : 4 + h.value_length ≤ length raw
    fits = subst (Safe (Fits raw)) e (unmarshal-Safe buf law raw)

    value_slice :
        (reader : List ℕ) × (slice 4 (4 + h.value_length) raw ≡ ok reader)
        × (length reader ≡ 4 + h.value_length - 4)
    value_slice = slice_inside 4 (4 + h.value_length) raw (omega arith) fits

-- `check` accepts exactly the chunks that RFC 4960 allows: a tag, streams in both directions, and a
-- window of 1500 bytes or more.
pub check_iff :
    (c : ChunkInit)
    → (check c ≡ ok tt) ↔ (
        (0 < c.initiate_tag)
        × (0 < c.num_inbound_streams)
        × (0 < c.num_outbound_streams)
        × (1500 ≤ c.advertised_receiver_window_credit))
unfolding check
check_iff c = ground arith
