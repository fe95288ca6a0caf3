-- ===== src/Bytes.antt =====
-- The reads and writes of the `bytes` crate that the chunk codecs use: a buffer is a list of bytes.
-- `put_u16` and `put_u32` are the bytes that the call appends, in network order, and a read is
-- `none` where the crate aborts for want of bytes. `IsLawful` is what the codecs rely on.
pub mod BigEndian
pub mod Reads
use sctp.Base.{
  ℕ, ◌+◌, ◌-◌, ◌≤◌, ◌<◌, ◌^◌, ◌≡◌, List, ◌∷◌, [], ◌++◌, Option, none, some, length, drop, take,
  if◌then◌else◌, leb, IsU8, IsU16, IsU32, ◌&&◌,
}
use sctp.Error.{Result, ok, panicked}

pub record Buf : Type 0 where
  pub put_u8 : ℕ → List ℕ
  pub put_u16 : ℕ → List ℕ
  pub put_u32 : ℕ → List ℕ
  pub put_u32_le : ℕ → List ℕ
  pub get_u8 : List ℕ → Option (ℕ × List ℕ)
  pub get_u16 : List ℕ → Option (ℕ × List ℕ)
  pub get_u32 : List ℕ → Option (ℕ × List ℕ)
  pub get_u32_le : List ℕ → Option (ℕ × List ℕ)

-- A write of a word in range takes `size` bytes and is read back, whatever follows; a read of
-- `size` bytes or more succeeds and leaves the rest.
pub record IsWord (size bound : ℕ) (put : ℕ → List ℕ) (get : List ℕ → Option (ℕ × List ℕ))
    : Type 0 where
  pub length-put : (n : ℕ) → length (put n) ≡ size
  pub get-put : (n : ℕ) (rest : List ℕ) → n < bound → get (put n ++ rest) ≡ some (n, rest)
  pub get_enough :
      (raw : List ℕ) → size ≤ length raw → (n : ℕ) × (get raw ≡ some (n, drop size raw))
  pub get_short : (raw : List ℕ) → length raw < size → get raw ≡ none

pub record IsLawful (buf : Buf) : Type 0 where
  pub u8 : IsWord 1 (2 ^ 8) buf.put_u8 buf.get_u8
  pub get_u8_lem : (b : ℕ) (rest : List ℕ) → buf.get_u8 (b ∷ rest) ≡ some (b, rest)
  pub u16 : IsWord 2 (2 ^ 16) buf.put_u16 buf.get_u16
  pub u32 : IsWord 4 (2 ^ 32) buf.put_u32 buf.get_u32
  pub u32_le : IsWord 4 (2 ^ 32) buf.put_u32_le buf.get_u32_le

-- `Bytes::slice(start..end)`, which aborts on a range that is not inside the buffer.
unfoldable pub slice : ℕ → ℕ → List ℕ → Result (List ℕ)
slice start end raw =
    if leb start end && leb end (length raw)
    then ok (take (end - start) (drop start raw))
    else panicked

-- `Bytes::slice(start..)`.
unfoldable pub slice_from : ℕ → List ℕ → Result (List ℕ)
slice_from start raw = if leb start (length raw) then ok (drop start raw) else panicked
