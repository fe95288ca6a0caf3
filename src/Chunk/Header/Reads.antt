-- ===== src/Chunk/Header/Reads.antt =====
-- src/chunk/chunk_header.rs: what a parsed header says of the buffer, and when it is read back.
use sctp.Base.{
  ℕ, zero, suc, ◌+◌, ◌-◌, ◌^◌, ◌≤◌, ◌<◌, ◌≡◌, refl, sym, ap, ◌∙◌, List, ◌∷◌, [], ◌++◌, some, length,
  drop, if◌then◌else◌, leb, ltb, ◌==◌, true, add16, All, arith, IsU8, ltb→lt, le→leb, leb→le,
  Bool-cases, inl, inr, length-append, length-drop,
}
use mathlib.Core.List.{append_assoc}
use sctp.Error.{ok, err_chunk_header_not_enough_space}
use sctp.Error.Outcomes.{Safe, >>-Safe, guard-Safe, reading-Safe}
use sctp.Bytes.{Buf, IsLawful}
use sctp.Chunk.Header.{ChunkHeader, unmarshal, marshal_to, check_padding, index}

abbrev pub Fits : List ℕ → ChunkHeader → Type 0
Fits raw h = 4 + h.value_length ≤ length raw

index_inside : (i : ℕ) (raw : List ℕ) → i < length raw → (b : ℕ) × (index i raw ≡ ok b)
unfolding index
index_inside i [] h = absurd (omega arith)
index_inside zero (b ∷ raw) h = (b, refl)
index_inside (suc i) (b ∷ raw) h = index_inside i raw (omega arith)

check_padding_inside :
    (v i : ℕ) (raw : List ℕ) → 4 + v + i ≤ length raw → Safe (λ u. Unit {0}) (check_padding v i raw)
unfolding check_padding
check_padding_inside v zero raw h = tt
check_padding_inside v (suc i) raw h =
    let (b, e) = index_inside (4 + (v + suc i - 1)) raw (omega arith) in
    rw e (elim (Bool-cases (b == 0)) [
      | inl z ↦ rw z (check_padding_inside v i raw (omega arith))
      | inr z ↦ rw z tt
    ])

value_fits : (raw : List ℕ) (len : ℕ) → 4 ≤ len → len ≤ length raw → 4 + (len - 4) ≤ length raw
value_fits raw len h g = omega arith

padding-Safe :
    (raw : List ℕ) (len : ℕ)
    → 4 ≤ len
    → len ≤ length raw
    → Safe
        (λ u. Unit {0})
        (if ltb (length raw - len) 4 then check_padding (len - 4) (length raw - len) raw else ok tt)
padding-Safe raw len h g = elim (Bool-cases (ltb (length raw - len) 4)) [
  | inl b ↦ rw b (check_padding_inside (len - 4) (length raw - len) raw (omega arith))
  | inr b ↦ rw b tt
]

-- A parse never aborts, and a parsed header counts no more bytes than the buffer has.
pub unmarshal-Safe :
    (buf : Buf) → IsLawful buf → (raw : List ℕ) → Safe (Fits raw) (unmarshal buf raw)
unfolding unmarshal
unmarshal-Safe buf law raw = guard-Safe (Fits raw) _ _ _ (λ (long : leb 4 (length raw) ≡ true).
    let (typ, e1) = law.u8.get_enough raw (ground arith) in
    let (flags, e2) = law.u8.get_enough (drop 1 raw) (ground (arith, length-drop 1 raw)) in
    let (len, e3) =
      law.u16.get_enough (drop 1 (drop 1 raw))
        (ground (arith, length-drop 1 raw, length-drop 1 (drop 1 raw))) in
    reading-Safe (Fits raw) _ _ _ e1 (
      reading-Safe (Fits raw) _ _ _ e2 (
        reading-Safe (Fits raw) _ _ _ e3 (
          guard-Safe (Fits raw) _ _ _ (λ (h : leb 4 len ≡ true).
            guard-Safe (Fits raw) _ _ _ (λ (g : leb len (length raw) ≡ true).
              guard-Safe (Fits raw) _ err_chunk_header_not_enough_space _
                (λ (k : leb len (length raw) ≡ true).
                  >>-Safe (Fits raw) _ _ (padding-Safe raw len (leb→le 4 len h) (leb→le _ _ g))
                    (value_fits raw len (leb→le 4 len h) (leb→le _ _ g)))))))))

-- What follows a chunk in its buffer: fewer than four bytes are padding, which is zero.
abbrev pub IsPadded : List ℕ → Type 0
IsPadded rest = length rest < 4 → All (λ b. b ≡ 0) rest

suc_plus : (a b : ℕ) → suc a + b ≡ suc (a + b)
suc_plus a b = omega arith

pub index-append :
    (front rest : List ℕ) (i : ℕ) → index (length front + i) (front ++ rest) ≡ index i rest
unfolding index
index-append [] rest i = ap (λ k. index k rest) (omega arith)
index-append (b ∷ front) rest i =
    ap (λ k. index k (b ∷ front ++ rest)) (suc_plus (length front) i) ∙ index-append front rest i

index-All : (rest : List ℕ) (i : ℕ) → All (λ b. b ≡ 0) rest → i < length rest → index i rest ≡ ok 0
unfolding index
index-All [] i h g = absurd (omega arith)
index-All (b ∷ rest) zero h g = ap ok h.0
index-All (b ∷ rest) (suc i) h g = index-All rest i h.1 (omega arith)

pad_offset : (l v i : ℕ) → l ≡ 4 + v → 4 + (v + suc i - 1) ≡ l + i
pad_offset l v i h = omega arith

check_padding-All :
    (front rest : List ℕ) (v i : ℕ)
    → length front ≡ 4 + v
    → i ≤ length rest
    → All (λ b. b ≡ 0) rest
    → check_padding v i (front ++ rest) ≡ ok tt
unfolding check_padding
check_padding-All front rest v zero len h z = refl
check_padding-All front rest v (suc i) len h z =
    rw
      (ap (λ k. index k (front ++ rest)) (pad_offset (length front) v i len)
        ∙ index-append front rest i
        ∙ index-All rest i z (omega arith))
      (check_padding-All front rest v i len (omega arith) z)

pub header_append :
    (buf : Buf) (h : ChunkHeader) (rest : List ℕ)
    → (marshal_to buf h ++ rest)
      ≡ (buf.put_u8 h.typ ++ (buf.put_u8 h.flags ++ (buf.put_u16 (add16 h.value_length 4) ++ rest)))
unfolding marshal_to
header_append buf h rest =
    append_assoc (buf.put_u8 h.typ) _ rest
    ∙ ap (λ r. buf.put_u8 h.typ ++ r) (append_assoc (buf.put_u8 h.flags) _ rest)

pub length-marshal_to :
    (buf : Buf) → IsLawful buf → (h : ChunkHeader) → length (marshal_to buf h) ≡ 4
unfolding marshal_to
length-marshal_to buf law h = ground (
  arith,
  length-append (buf.put_u8 h.typ) (buf.put_u8 h.flags ++ buf.put_u16 (add16 h.value_length 4)),
  length-append (buf.put_u8 h.flags) (buf.put_u16 (add16 h.value_length 4)),
  law.u8.length-put h.typ,
  law.u8.length-put h.flags,
  law.u16.length-put (add16 h.value_length 4),
)

unmarshal_steps :
    (buf : Buf) (raw r1 r2 r3 : List ℕ) (t f len : ℕ)
    → 4 ≤ length raw
    → buf.get_u8 raw ≡ some (t, r1)
    → buf.get_u8 r1 ≡ some (f, r2)
    → buf.get_u16 r2 ≡ some (len, r3)
    → 4 ≤ len
    → len ≤ length raw
    → (length raw - len < 4 → check_padding (len - 4) (length raw - len) raw ≡ ok tt)
    → unmarshal buf raw ≡ ok (record { typ = t; flags = f; value_length = len - 4 })
unfolding unmarshal
unmarshal_steps buf raw r1 r2 r3 t f len enough e1 e2 e3 h g pad =
    rw (le→leb 4 (length raw) enough) (
      rw e1 (
        rw e2 (
          rw e3 (
            rw (le→leb 4 len h) (
              rw (le→leb len (length raw) g) (elim (Bool-cases (ltb (length raw - len) 4)) [
                | inl b ↦ rw b (rw (pad (ltb→lt _ _ b)) refl)
                | inr b ↦ rw b refl
              ]))))))

-- A written header is read back, whatever its value is and whatever follows.
pub unmarshal-marshal_to :
    (buf : Buf)
    → IsLawful buf
    → (h : ChunkHeader) (body rest : List ℕ) → IsU8 h.typ
    → IsU8 h.flags
    → h.value_length + 4 < 2 ^ 16
    → length body ≡ h.value_length
    → IsPadded rest
    → unmarshal buf (marshal_to buf h ++ (body ++ rest)) ≡ ok h
unmarshal-marshal_to buf law h body rest t f v len pad =
    unmarshal_steps buf (marshal_to buf h ++ (body ++ rest)) _ _ (body ++ rest) h.typ h.flags
      (add16 h.value_length 4) (omega (arith, total))
      (ap buf.get_u8 (header_append buf h (body ++ rest)) ∙ law.u8.get-put h.typ _ t)
      (law.u8.get-put h.flags _ f)
      (law.u16.get-put (add16 h.value_length 4) (body ++ rest) (omega arith)) (omega arith)
      (omega (arith, total)) (λ short. padding short)
    ∙ ap (λ k. ok (record { typ = h.typ; flags = h.flags; value_length = k })) (omega arith)
  where
    total : length (marshal_to buf h ++ (body ++ rest)) ≡ 4 + h.value_length + length rest
    total = omega (
      arith,
      length-append (marshal_to buf h) (body ++ rest),
      length-append body rest,
      length-marshal_to buf law h,
    )

    padding :
        length (marshal_to buf h ++ (body ++ rest)) - add16 h.value_length 4 < 4
        → check_padding
            (add16 h.value_length 4 - 4)
            (length (marshal_to buf h ++ (body ++ rest)) - add16 h.value_length 4)
            (marshal_to buf h ++ (body ++ rest))
          ≡ ok tt
    padding short =
        ap (check_padding _ _) (sym (append_assoc (marshal_to buf h) body rest))
        ∙ check_padding-All (marshal_to buf h ++ body) rest _ _
            (omega (arith, length-append (marshal_to buf h) body, length-marshal_to buf law h))
            (omega (arith, total)) (pad (omega (arith, total)))

-- The first byte of a written header is the chunk's type.
pub index-marshal_to :
    (buf : Buf)
    → IsLawful buf
    → (h : ChunkHeader) (rest : List ℕ) → IsU8 h.typ
    → index 0 (marshal_to buf h ++ rest) ≡ ok h.typ
unfolding index
index-marshal_to buf law h rest t =
    ap (index 0) (header_append buf h rest)
    ∙ first_byte (buf.put_u8 h.typ) _ (law.u8.length-put h.typ) (law.u8.get-put h.typ _ t)
  where
    first_byte :
        (put tail : List ℕ)
        → length put ≡ 1
        → buf.get_u8 (put ++ tail) ≡ some (h.typ, tail)
        → index 0 (put ++ tail) ≡ ok h.typ
    first_byte [] tail l g = absurd (omega arith)
    first_byte (b ∷ []) tail l g = ap ok (ground (arith, sym (law.get_u8_lem b tail) ∙ g))
    first_byte (b ∷ c ∷ bs) tail l g = absurd (omega arith)
