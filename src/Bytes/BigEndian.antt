-- ===== src/Bytes/BigEndian.antt =====
-- A buffer in network order, which shows that the laws of the `bytes` crate can hold.
use sctp.Base.{
  ℕ, ◌+◌, ◌*◌, ◌/◌, ◌%◌, ◌^◌, ◌≤◌, ◌<◌, ◌≡◌, refl, List, ◌∷◌, [], Option, none, some, ap, arith,
  length, drop,
}
use sctp.Bytes.{Buf, IsLawful, IsWord}

unfoldable put8 : ℕ → List ℕ
put8 n = n ∷ []

unfoldable put16 : ℕ → List ℕ
put16 n = (n / 2 ^ 8) ∷ n % 2 ^ 8 ∷ []

unfoldable put32 : ℕ → List ℕ
put32 n = (n / 2 ^ 24) ∷ (n / 2 ^ 16 % 2 ^ 8) ∷ (n / 2 ^ 8 % 2 ^ 8) ∷ (n % 2 ^ 8) ∷ []

unfoldable put32_le : ℕ → List ℕ
put32_le n = (n % 2 ^ 8) ∷ (n / 2 ^ 8 % 2 ^ 8) ∷ (n / 2 ^ 16 % 2 ^ 8) ∷ (n / 2 ^ 24) ∷ []

unfoldable get8 : List ℕ → Option (ℕ × List ℕ)
get8 [] = none
get8 (a ∷ r) = some (a, r)

unfoldable get16 : List ℕ → Option (ℕ × List ℕ)
get16 (a ∷ b ∷ r) = some (a * 2 ^ 8 + b, r)
get16 r = none

unfoldable get32 : List ℕ → Option (ℕ × List ℕ)
get32 (a ∷ b ∷ c ∷ d ∷ r) = some (a * 2 ^ 24 + b * 2 ^ 16 + c * 2 ^ 8 + d, r)
get32 r = none

unfoldable get32_le : List ℕ → Option (ℕ × List ℕ)
get32_le (d ∷ c ∷ b ∷ a ∷ r) = some (a * 2 ^ 24 + b * 2 ^ 16 + c * 2 ^ 8 + d, r)
get32_le r = none

unfoldable pub big_endian : Buf
unfolding put8 put16 put32 put32_le get8 get16 get32 get32_le
big_endian = record {
  put_u8 = put8;
  put_u16 = put16;
  put_u32 = put32;
  put_u32_le = put32_le;
  get_u8 = get8;
  get_u16 = get16;
  get_u32 = get32;
  get_u32_le = get32_le;
}

get_enough8 : (raw : List ℕ) → 1 ≤ length raw → (n : ℕ) × (get8 raw ≡ some (n, drop 1 raw))
unfolding get8
get_enough8 [] h = absurd (omega arith)
get_enough8 (a ∷ r) h = (a, refl)

get_short8 : (raw : List ℕ) → length raw < 1 → get8 raw ≡ none
unfolding get8
get_short8 [] h = refl
get_short8 (a ∷ r) h = absurd (omega arith)

get_enough16 : (raw : List ℕ) → 2 ≤ length raw → (n : ℕ) × (get16 raw ≡ some (n, drop 2 raw))
unfolding get16
get_enough16 [] h = absurd (omega arith)
get_enough16 (a ∷ []) h = absurd (omega arith)
get_enough16 (a ∷ b ∷ r) h = (a * 2 ^ 8 + b, refl)

get_short16 : (raw : List ℕ) → length raw < 2 → get16 raw ≡ none
unfolding get16
get_short16 [] h = refl
get_short16 (a ∷ []) h = refl
get_short16 (a ∷ b ∷ r) h = absurd (omega arith)

get_enough32 : (raw : List ℕ) → 4 ≤ length raw → (n : ℕ) × (get32 raw ≡ some (n, drop 4 raw))
unfolding get32
get_enough32 (a ∷ b ∷ c ∷ d ∷ r) h = (a * 2 ^ 24 + b * 2 ^ 16 + c * 2 ^ 8 + d, refl)
get_enough32 [] h = absurd (omega arith)
get_enough32 (a ∷ []) h = absurd (omega arith)
get_enough32 (a ∷ b ∷ []) h = absurd (omega arith)
get_enough32 (a ∷ b ∷ c ∷ []) h = absurd (omega arith)

get_short32 : (raw : List ℕ) → length raw < 4 → get32 raw ≡ none
unfolding get32
get_short32 (a ∷ b ∷ c ∷ d ∷ r) h = absurd (omega arith)
get_short32 [] h = refl
get_short32 (a ∷ []) h = refl
get_short32 (a ∷ b ∷ []) h = refl
get_short32 (a ∷ b ∷ c ∷ []) h = refl

get_enough32_le : (raw : List ℕ) → 4 ≤ length raw → (n : ℕ) × (get32_le raw ≡ some (n, drop 4 raw))
unfolding get32_le
get_enough32_le (d ∷ c ∷ b ∷ a ∷ r) h = (a * 2 ^ 24 + b * 2 ^ 16 + c * 2 ^ 8 + d, refl)
get_enough32_le [] h = absurd (omega arith)
get_enough32_le (a ∷ []) h = absurd (omega arith)
get_enough32_le (a ∷ b ∷ []) h = absurd (omega arith)
get_enough32_le (a ∷ b ∷ c ∷ []) h = absurd (omega arith)

get_short32_le : (raw : List ℕ) → length raw < 4 → get32_le raw ≡ none
unfolding get32_le
get_short32_le (a ∷ b ∷ c ∷ d ∷ r) h = absurd (omega arith)
get_short32_le [] h = refl
get_short32_le (a ∷ []) h = refl
get_short32_le (a ∷ b ∷ []) h = refl
get_short32_le (a ∷ b ∷ c ∷ []) h = refl

word8 : IsWord 1 (2 ^ 8) put8 get8
unfolding put8 get8
word8 = record {
  length-put = λ n. refl;
  get-put = λ n rest h. refl;
  get_enough = get_enough8;
  get_short = get_short8;
}

word16 : IsWord 2 (2 ^ 16) put16 get16
unfolding put16 get16
word16 = record {
  length-put = λ n. refl;
  get-put = λ n rest h. ap (λ k. some (k, rest)) (omega arith);
  get_enough = get_enough16;
  get_short = get_short16;
}

word32 : IsWord 4 (2 ^ 32) put32 get32
unfolding put32 get32
word32 = record {
  length-put = λ n. refl;
  get-put = λ n rest h. ap (λ k. some (k, rest)) (omega arith);
  get_enough = get_enough32;
  get_short = get_short32;
}

word32_le : IsWord 4 (2 ^ 32) put32_le get32_le
unfolding put32_le get32_le
word32_le = record {
  length-put = λ n. refl;
  get-put = λ n rest h. ap (λ k. some (k, rest)) (omega arith);
  get_enough = get_enough32_le;
  get_short = get_short32_le;
}

pub big_endian-IsLawful : IsLawful big_endian
unfolding big_endian get8
big_endian-IsLawful = record {
  u8 = word8;
  get_u8_lem = λ b rest. refl;
  u16 = word16;
  u32 = word32;
  u32_le = word32_le;
}
