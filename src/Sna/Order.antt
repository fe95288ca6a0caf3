-- ===== src/Sna/Order.antt =====
-- The comparisons of Sna.antt against the distance from the first number to the second on the
-- circle of all serial numbers.
use sctp.Base.{
  ℕ, ◌+◌, ◌-◌, ◌%◌, ◌^◌, ◌≤◌, ◌<◌, ◌≡◌, ◌↔◌, ◌⊎◌, true, false, not, arith, ltb, IsU16, IsU32, sub32,
  add32,
}
use sctp.Sna.{
  sna32lt, sna32lte, sna32gt, sna32gte, sna16lt, sna16lte, sna16gt, sna16gte, get_padding_size,
}

-- The steps up from `a` to `b`, with wrap-around.
abbrev pub ahead32 : ℕ → ℕ → ℕ
ahead32 a b = sub32 b a

abbrev pub ahead16 : ℕ → ℕ → ℕ
ahead16 a b = (b + 2 ^ 16 - a) % 2 ^ 16

-- Of two 32-bit serial numbers, `sna32lt` says that the second is 1 to 2^31 - 1 steps ahead of
-- the first, `sna32gt` that it is 2^31 steps or more ahead, and the other two add equality.
pub sna32_iff :
    (a b : ℕ)
    → IsU32 a
    → IsU32 b
    → ((sna32lt a b ≡ true) ↔ ((0 < ahead32 a b) × (ahead32 a b < 2 ^ 31)))
      × ((sna32gt a b ≡ true) ↔ (2 ^ 31 ≤ ahead32 a b))
      × ((sna32lte a b ≡ true) ↔ (ahead32 a b < 2 ^ 31))
      × ((sna32gte a b ≡ true) ↔ ((a ≡ b) ⊎ (2 ^ 31 ≤ ahead32 a b)))
unfolding sna32lte sna32gte
sna32_iff a b ha hb = (ground arith, ground arith, ground arith, ground arith)

pub sna16_iff :
    (a b : ℕ)
    → IsU16 a
    → IsU16 b
    → ((sna16lt a b ≡ true) ↔ ((0 < ahead16 a b) × (ahead16 a b < 2 ^ 15)))
      × ((sna16gt a b ≡ true) ↔ (2 ^ 15 ≤ ahead16 a b))
      × ((sna16lte a b ≡ true) ↔ (ahead16 a b < 2 ^ 15))
      × ((sna16gte a b ≡ true) ↔ ((a ≡ b) ⊎ (2 ^ 15 ≤ ahead16 a b)))
unfolding sna16lte sna16gte
sna16_iff a b ha hb = (ground arith, ground arith, ground arith, ground arith)

-- The relation does not change when both numbers move by the same number of steps, past the
-- wrap-around or not.
pub sna32lt-add32 :
    (a b k : ℕ) → IsU32 a → IsU32 b → IsU32 k → sna32lt (add32 a k) (add32 b k) ≡ sna32lt a b
unfolding sna32lt
sna32lt-add32 a b k ha hb hk = ground arith

-- Among numbers less than 2^31 steps ahead of a common base the comparison is that of the steps.
pub sna32lt-ahead32 :
    (base a b : ℕ)
    → IsU32 base
    → IsU32 a
    → IsU32 b
    → ahead32 base a < 2 ^ 31
    → ahead32 base b < 2 ^ 31
    → sna32lt a b ≡ ltb (ahead32 base a) (ahead32 base b)
unfolding sna32lt
sna32lt-ahead32 base a b h ha hb wa wb = ground arith

pub sna16lt-ahead16 :
    (base a b : ℕ)
    → IsU16 base
    → IsU16 a
    → IsU16 b
    → ahead16 base a < 2 ^ 15
    → ahead16 base b < 2 ^ 15
    → sna16lt a b ≡ ltb (ahead16 base a) (ahead16 base b)
unfolding sna16lt
sna16lt-ahead16 base a b h ha hb wa wb = ground arith

-- The complement that the queues rely on.
pub sna16lte-not_gt : (a b : ℕ) → IsU16 a → IsU16 b → sna16lte a b ≡ not (sna16gt a b)
unfolding sna16lte sna16gt
sna16lte-not_gt a b ha hb = ground arith

-- `get_padding_size` is the least number that fills a length up to a multiple of four.
pub get_padding_size_least :
    (len : ℕ)
    → (get_padding_size len < 4)
      × ((len + get_padding_size len) % 4 ≡ 0)
      × ((k : ℕ) → (len + k) % 4 ≡ 0 → get_padding_size len ≤ k)
unfolding get_padding_size
get_padding_size_least len = (omega arith, omega arith, λ k h. omega arith)

-- A number not after another stands no further from a common base, when both are in its half.
pub not_gt-ahead16 :
    (base a b : ℕ)
    → IsU16 base
    → IsU16 a
    → IsU16 b
    → ahead16 base a < 2 ^ 15
    → ahead16 base b < 2 ^ 15
    → sna16gt a b ≡ false
    → ahead16 base a ≤ ahead16 base b
unfolding sna16gt
not_gt-ahead16 base a b h ha hb wa wb e = ground arith
