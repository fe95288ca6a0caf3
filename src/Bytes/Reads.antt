-- ===== src/Bytes/Reads.antt =====
-- Reads of the `bytes` crate in a chain of fallible steps: those that have enough bytes never abort.
use sctp.Base.{
  ◌<◌, ◌%◌, ◌^◌, some, ℕ, ◌+◌, ◌-◌, ◌≤◌, ◌≡◌, List, length, drop, take, Option, arith, length-drop,
  length-take, le→leb, ◌++◌, take-append_length, length-append, drop-append_le, drop-append_plus,
  ap, ◌∙◌,
}
use sctp.Error.{Result, ok, ◌>>=◌, reading}
use sctp.Error.Outcomes.{Safe, reading-Safe}
use sctp.Bytes.{IsWord, slice}

module _ {ℓ} {A : Type ℓ} (P : A → Type 0) where
  -- A read of a word from a buffer that has m bytes more.
  pub read-Safe :
      (size bound : ℕ) (put : ℕ → List ℕ) (get : List ℕ → Option (ℕ × List ℕ))
      → IsWord size bound put get
      → (m : ℕ) (raw : List ℕ) (f : ℕ × List ℕ → Result A) → size + m ≤ length raw
      → ((n : ℕ) (rest : List ℕ) → m ≤ length rest → Safe P (f (n, rest)))
      → Safe P (reading (get raw) >>= f)
  read-Safe size bound put get word m raw f h go =
      let (n, e) = word.get_enough raw (omega arith) in
      reading-Safe P _ f _ e (go n (drop size raw) (omega (arith, length-drop size raw)))

  -- A slice inside the buffer.
  pub slice-Safe :
      (start end : ℕ) (raw : List ℕ) (f : List ℕ → Result A)
      → start ≤ end
      → end ≤ length raw
      → ((value : List ℕ) → length value ≡ end - start → Safe P (f value))
      → Safe P (slice start end raw >>= f)
  unfolding slice
  slice-Safe start end raw f h g go = rw (le→leb start end h) (
      rw (le→leb end (length raw) g) (
        go (take (end - start) (drop start raw))
          (omega (arith, length-take (end - start) (drop start raw), length-drop start raw))))

mod_below : (n : ℕ) → n < 2 ^ 16 → n % 2 ^ 16 ≡ n
mod_below n h = omega arith

-- The slice that begins k bytes into the value of a chunk and ends with it.
pub slice-value :
    (head value rest : List ℕ) (k v : ℕ)
    → length value ≡ v
    → k ≤ v
    → length head ≡ 4
    → slice (4 + k) (4 + v) (head ++ (value ++ rest)) ≡ ok (drop k value)
unfolding slice
slice-value head value rest k v len h l =
    rw
      (
        le→leb (4 + k) (4 + v) (omega arith),
        le→leb (4 + v) (length (head ++ (value ++ rest)))
            (omega (arith, length-append head (value ++ rest), length-append value rest)),
      )
      (ap ok (
        ap (take _) (
          drop-append_plus (4 + k) k head (value ++ rest) (omega arith)
          ∙ drop-append_le k value rest (omega arith))
        ∙ take-append_length _ (drop k value) rest (omega (arith, length-drop k value))))

pub length-put-append :
    {size bound : ℕ} {put : ℕ → List ℕ} {get : List ℕ → Option (ℕ × List ℕ)}
    → IsWord size bound put get
    → (n : ℕ) (rest : List ℕ) → length (put n ++ rest) ≡ size + length rest
length-put-append {put = put} word n rest =
    omega (arith, length-append (put n) rest, word.length-put n)

-- A count below 2 ^ 16 is written whole by a cast to the word, and read back.
pub get-put_cast16 :
    {size : ℕ} {put : ℕ → List ℕ} {get : List ℕ → Option (ℕ × List ℕ)}
    → IsWord size (2 ^ 16) put get
    → (n : ℕ) (rest : List ℕ) → n < 2 ^ 16
    → get (put (n % 2 ^ 16) ++ rest) ≡ some (n, rest)
get-put_cast16 {put = put} {get = get} word n rest h =
    ap (λ k. get (put k ++ rest)) (mod_below n h) ∙ word.get-put n rest h
