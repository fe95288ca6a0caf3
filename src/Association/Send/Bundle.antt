-- ===== src/Association/Send/Bundle.antt =====
-- `bundle_data_chunks_into_packets` of src/association/association_internal.rs: no chunk is lost,
-- and how large a packet gets.
use sctp.Base.{
  ℕ, ◌+◌, ◌%◌, ◌^◌, ◌≤◌, ◌≡◌, Bool, add32, refl, List, [], ◌∷◌, ◌++◌, length, ltb, All, ap, ◌∙◌,
  arith, Bool-cases, inl, inr,
}
use sctp.Base.Sort.{total, total-append}
use mathlib.Core.List.{append_assoc}
use sctp.Chunk.PayloadData.{ChunkPayloadData}
use sctp.Association.Internal.{Association}
use sctp.Association.Send.{
  bundle_loop, bundle_data_chunks_into_packets, common_header_size, data_chunk_header_size,
}

abbrev pub concat : List (List ChunkPayloadData) → List ChunkPayloadData
concat [] = []
concat (p ∷ ps) = p ++ concat ps

-- The bytes of a packet without the padding of its chunks.
abbrev pub packet_size : List ChunkPayloadData → ℕ
packet_size p = common_header_size + total (λ c. data_chunk_header_size + length c.user_data) p

-- The `u32` sizes of the loop, with a chunk added.
abbrev size_of : ChunkPayloadData → ℕ
size_of c = add32 data_chunk_header_size (length c.user_data % 2 ^ 32)

abbrev overflows : ℕ → ℕ → ChunkPayloadData → Bool
overflows mtu bytes c = ltb mtu (add32 bytes (length c.user_data % 2 ^ 32))

bundle_loop-concat :
    (mtu bytes : ℕ) (p cs : List ChunkPayloadData) → concat (bundle_loop mtu p bytes cs) ≡ p ++ cs
unfolding bundle_loop
bundle_loop-concat mtu bytes [] [] = refl
bundle_loop-concat mtu bytes (x ∷ p) [] = refl
bundle_loop-concat mtu bytes p (c ∷ cs) = elim (Bool-cases (overflows mtu bytes c)) [
  | inl e ↦
      rw (e, bundle_loop)
        (ap (◌++◌ p) (bundle_loop-concat mtu (add32 common_header_size (size_of c)) (c ∷ []) cs))
  | inr e ↦
      rw (e, bundle_loop)
        (bundle_loop-concat mtu (add32 bytes (size_of c)) (p ++ c ∷ []) cs
          ∙ append_assoc p (c ∷ []) cs)
]

-- A chunk that fits in a packet of its own.
abbrev pub Fits : ℕ → ChunkPayloadData → Type 0
Fits mtu c = common_header_size + data_chunk_header_size + length c.user_data ≤ mtu

-- With the MTU below 2^31 none of the sums wraps around.
size_of-exact :
    (mtu bytes : ℕ) (c : ChunkPayloadData)
    → mtu + data_chunk_header_size ≤ 2 ^ 31
    → bytes ≤ mtu + data_chunk_header_size
    → Fits mtu c
    → (add32 bytes (length c.user_data % 2 ^ 32) ≡ bytes + length c.user_data)
      × (add32 bytes (size_of c) ≡ bytes + (data_chunk_header_size + length c.user_data))
      × (add32 common_header_size (size_of c)
          ≡ common_header_size + (data_chunk_header_size + length c.user_data))
size_of-exact mtu bytes c w h f = (omega (arith, f), omega (arith, f), omega (arith, f))

bundle_loop-size :
    (mtu bytes : ℕ) (p cs : List ChunkPayloadData)
    → mtu + data_chunk_header_size ≤ 2 ^ 31
    → bytes ≡ packet_size p
    → bytes ≤ mtu + data_chunk_header_size
    → All (Fits mtu) cs
    → All (λ q. packet_size q ≤ mtu + data_chunk_header_size) (bundle_loop mtu p bytes cs)
unfolding bundle_loop
bundle_loop-size mtu bytes [] [] w e h f = tt
bundle_loop-size mtu bytes (x ∷ p) [] w e h f = (omega (arith, e), tt)
bundle_loop-size mtu bytes p (c ∷ cs) w e h f =
    let (now, grown, full) = size_of-exact mtu bytes c w h f.0 in
    elim (Bool-cases (overflows mtu bytes c)) [
      | inl k ↦
          rw (k, bundle_loop)
            (
              omega (arith, e),
              bundle_loop-size mtu (add32 common_header_size (size_of c)) (c ∷ []) cs w
                  (omega (arith, full)) (omega (arith, full, f.0)) f.1,
            )
      | inr k ↦
          let fits : bytes + length c.user_data ≤ mtu = ground (arith, k, now) in
          rw (k, bundle_loop)
            (bundle_loop-size mtu (add32 bytes (size_of c)) (p ++ c ∷ []) cs w
              (omega (
                arith,
                e,
                grown,
                total-append (λ (d : ChunkPayloadData). data_chunk_header_size + length d.user_data)
                    p (c ∷ []),
              ))
              (omega (arith, grown, fits)) f.1)
    ]

-- Bundling keeps all chunks in their order, and no packet is larger than the MTU and one chunk
-- header more, when each chunk fits in a packet of its own and the MTU is at most 2^31 less a chunk
-- header. Padding is not counted.
pub bundle_lem :
    (a : Association) (cs : List ChunkPayloadData)
    → All (Fits a.mtu) cs
    → common_header_size ≤ a.mtu
    → a.mtu + data_chunk_header_size ≤ 2 ^ 31
    → (concat (bundle_data_chunks_into_packets a cs) ≡ cs)
      × All
          (λ q. packet_size q ≤ a.mtu + data_chunk_header_size)
          (bundle_data_chunks_into_packets a cs)
unfolding bundle_data_chunks_into_packets
bundle_lem a cs f h w = (
  bundle_loop-concat a.mtu common_header_size [] cs,
  bundle_loop-size a.mtu common_header_size [] cs w (omega arith) (omega arith) f,
)
