-- ===== src/Sna.antt =====
-- src/util.rs: serial number arithmetic (RFC 1982) on 32 and 16 bits, and the padding size.
pub mod Order
use sctp.Base.{ℕ, ◌+◌, ◌-◌, ◌%◌, ◌^◌, Bool, ◌&&◌, ◌||◌, ltb, leb, ◌==◌}

unfoldable pub sna32lt : ℕ → ℕ → Bool
sna32lt i1 i2 = (ltb i1 i2 && ltb (i2 - i1) (2 ^ 31)) || (ltb i2 i1 && ltb (2 ^ 31) (i1 - i2))

unfoldable pub sna32lte : ℕ → ℕ → Bool
unfolding sna32lt
sna32lte i1 i2 = i1 == i2 || sna32lt i1 i2

unfoldable pub sna32gt : ℕ → ℕ → Bool
sna32gt i1 i2 = (ltb i1 i2 && leb (2 ^ 31) (i2 - i1)) || (ltb i2 i1 && leb (i1 - i2) (2 ^ 31))

unfoldable pub sna32gte : ℕ → ℕ → Bool
unfolding sna32gt
sna32gte i1 i2 = i1 == i2 || sna32gt i1 i2

unfoldable pub sna16lt : ℕ → ℕ → Bool
sna16lt i1 i2 = (ltb i1 i2 && ltb (i2 - i1) (2 ^ 15)) || (ltb i2 i1 && ltb (2 ^ 15) (i1 - i2))

unfoldable pub sna16lte : ℕ → ℕ → Bool
unfolding sna16lt
sna16lte i1 i2 = i1 == i2 || sna16lt i1 i2

unfoldable pub sna16gt : ℕ → ℕ → Bool
sna16gt i1 i2 = (ltb i1 i2 && leb (2 ^ 15) (i2 - i1)) || (ltb i2 i1 && leb (i1 - i2) (2 ^ 15))

unfoldable pub sna16gte : ℕ → ℕ → Bool
unfolding sna16gt
sna16gte i1 i2 = i1 == i2 || sna16gt i1 i2

-- `PADDING_MULTIPLE` is 4.
unfoldable pub get_padding_size : ℕ → ℕ
get_padding_size len = (4 - len % 4) % 4
