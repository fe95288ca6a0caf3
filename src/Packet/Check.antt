-- ===== src/Packet/Check.antt =====
-- src/packet.rs: `check_packet`, the rules that every packet keeps.
use sctp.Base.{
  ℕ, ◌<◌, ◌≡◌, ◌↔◌, refl, List, [], ◌∷◌, length, ◌==◌, ◌||◌, not, Bool, true, false, All, arith,
}
use sctp.Error.{
  Result, ok, ◌>>◌, guard, err_sctp_packet_source_port_zero, err_sctp_packet_destination_port_zero,
  err_init_chunk_bundled, err_init_chunk_verify_tag_not_zero,
}
use sctp.Packet.{Chunk, Packet, init}

-- An INIT chunk, not an INIT ACK.
unfoldable pub is_init : Chunk → Bool
is_init (init c) = not c.is_ack
is_init _ = false

unfoldable pub check_chunks : (count tag : ℕ) → List Chunk → Result (Unit {0})
unfolding is_init
check_chunks count tag [] = ok tt
check_chunks count tag (c ∷ chunks) = do
  guard (not (is_init c) || count == 1) err_init_chunk_bundled
  guard (not (is_init c) || tag == 0) err_init_chunk_verify_tag_not_zero
  check_chunks count tag chunks

unfoldable pub check_packet : Packet → Result (Unit {0})
unfolding check_chunks
check_packet p = do
  guard (not (p.source_port == 0)) err_sctp_packet_source_port_zero
  guard (not (p.destination_port == 0)) err_sctp_packet_destination_port_zero
  check_chunks (length p.chunks) p.verification_tag p.chunks

-- What an INIT chunk asks of its packet: that it is alone in it, and that the tag is zero.
abbrev pub Alone : Packet → Chunk → Type 0
Alone p c = is_init c ≡ true → (length p.chunks ≡ 1) × (p.verification_tag ≡ 0)

abbrev AloneIn : (count tag : ℕ) → Chunk → Type 0
AloneIn count tag c = is_init c ≡ true → (count ≡ 1) × (tag ≡ 0)

guards_iff :
    (b : Bool) (count tag : ℕ) (r : Result (Unit {0}))
    → ((guard (not b || count == 1) err_init_chunk_bundled
          >> (guard (not b || tag == 0) err_init_chunk_verify_tag_not_zero >> r))
        ≡ ok tt)
      ↔ ((b ≡ true → (count ≡ 1) × (tag ≡ 0)) × (r ≡ ok tt))
guards_iff true count tag r = ground arith
guards_iff false count tag r = ground arith

ports_iff :
    (source destination : ℕ) (r : Result (Unit {0}))
    → ((guard (not (source == 0)) err_sctp_packet_source_port_zero
          >> (guard (not (destination == 0)) err_sctp_packet_destination_port_zero >> r))
        ≡ ok tt)
      ↔ ((0 < source) × (0 < destination) × (r ≡ ok tt))
ports_iff source destination r = ground arith

check_chunks_iff :
    (count tag : ℕ) (chunks : List Chunk)
    → (check_chunks count tag chunks ≡ ok tt) ↔ All (AloneIn count tag) chunks
unfolding check_chunks
check_chunks_iff count tag [] = ((λ h. tt), (λ h. refl))
check_chunks_iff count tag (c ∷ chunks) =
    let (there, back) = guards_iff (is_init c) count tag (check_chunks count tag chunks) in
    let (all, none_bad) = check_chunks_iff count tag chunks in
    ((λ h. ((there h).0, all ((there h).1))), (λ h. back (h.0, none_bad h.1)))

pub check_packet_iff :
    (p : Packet)
    → (check_packet p ≡ ok tt)
      ↔ ((0 < p.source_port) × (0 < p.destination_port) × All (Alone p) p.chunks)
unfolding check_packet
check_packet_iff p =
    let (there, back) = check_chunks_iff (length p.chunks) p.verification_tag p.chunks in
    let (split, join) =
      ports_iff p.source_port p.destination_port
        (check_chunks (length p.chunks) p.verification_tag p.chunks) in
    ((λ h. let (s, d, r) = split h in (s, d, there r)), (λ h. join (h.0, h.1, back h.2)))
