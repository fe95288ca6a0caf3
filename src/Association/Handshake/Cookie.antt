-- ===== src/Association/Handshake/Cookie.antt =====
-- src/association/association_internal.rs: what an INIT is answered with, and what a cookie opens.
use sctp.Base.{
  ℕ, ◌≡◌, ◌≢◌, inl, inr, refl, sym, ap, ◌∙◌, Bool, true, false, not, ◌&&◌, ◌||◌, List, [], ◌∷◌,
  Option, none, some, arith, Bool-cases, ==_refl,
}
use sctp.Error.{ok, err, err_handle_init_state}
use sctp.Param.Values.{state_cookie_param, supported_extensions}
use sctp.Chunk.Init.{ChunkInit, set_supported_extensions}
use sctp.Chunk.Control.{ChunkCookieEcho}
use sctp.Packet.{Packet, init, cookie_ack}
use sctp.Association.State.{
  AssociationState, established, closed, cookie_wait, cookie_echoed, same_state, as_u8,
}
use sctp.Association.Internal.{Association, set_state, outbound_packet}
use sctp.Association.Handshake.{
  handle_cookie_echo, match_cookie, same_bytes, complete, handle_init, accept_init, init_ack,
  init_ack_params, cookie_or,
}

cons_equal : (x y : ℕ) (a b : List ℕ) → x ≡ y → a ≡ b → ◌≡◌ {A = List ℕ} (x ∷ a) (y ∷ b)
cons_equal x y a b h g = rw (h, g) refl

same_bytes-true : (a b : List ℕ) → same_bytes a b ≡ true → a ≡ b
unfolding same_bytes
same_bytes-true [] [] h = refl
same_bytes-true [] (y ∷ b) h = absurd (ground arith)
same_bytes-true (x ∷ a) [] h = absurd (ground arith)
same_bytes-true (x ∷ a) (y ∷ b) h = elim (Bool-cases (same_bytes a b)) [
  | inl e ↦ cons_equal x y a b (ground arith) (same_bytes-true a b e)
  | inr e ↦ absurd (ground arith)
]

same_bytes_refl : (a : List ℕ) → same_bytes a a ≡ true
unfolding same_bytes
same_bytes_refl [] = refl
same_bytes_refl (x ∷ a) = rw (==_refl x) (same_bytes_refl a)

-- The states in which a cookie completes the handshake.
unfoldable pub is_opening : AssociationState → Bool
is_opening s = same_state s closed || same_state s cookie_wait || same_state s cookie_echoed

other_cookie :
    (a : Association) (c : ChunkCookieEcho) (o : Option (List ℕ))
    → o ≢ some c.cookie
    → match_cookie a c o ≡ (a, [])
unfolding match_cookie
other_cookie a c none h = refl
other_cookie a c (some mine) h = elim (Bool-cases (same_bytes mine c.cookie)) [
  | inl e ↦ absurd (h (ap some (same_bytes-true mine c.cookie e)))
  | inr e ↦ forged e
]
  where
    forged : same_bytes mine c.cookie ≡ false → match_cookie a c (some mine) ≡ (a, [])
    forged e = elim (Bool-cases (same_state a.state established)) [
      | inl s ↦ rw (s, match_cookie) (rw e refl)
      | inr s ↦
          elim (Bool-cases (
            same_state a.state closed
            || same_state a.state cookie_wait
            || same_state a.state cookie_echoed)) [
              | inl o ↦ rw (s, match_cookie) (rw o (rw e refl))
              | inr o ↦ rw (s, match_cookie) (rw o refl)
            ]
    ]

opening-test :
    (s : AssociationState)
    → is_opening s ≡ true
    → (not (same_state s closed)
        && not (same_state s cookie_wait)
        && not (same_state s cookie_echoed))
      ≡ false
unfolding is_opening
opening-test s h = ground arith

closed-test :
    (s : AssociationState)
    → is_opening s ≡ false
    → (not (same_state s closed)
        && not (same_state s cookie_wait)
        && not (same_state s cookie_echoed))
      ≡ true
unfolding is_opening
closed-test s h = ground arith

opening-distinct : (s : AssociationState) → is_opening s ≡ true → same_state s established ≡ false
unfolding is_opening as_u8
opening-distinct s h = ground arith

own_cookie :
    (a : Association) (c : ChunkCookieEcho)
    → same_state a.state established ≡ false
    → is_opening a.state ≡ true
    → match_cookie a c (some c.cookie) ≡ (
      complete (record a { t1init = false; stored_init = none }),
      outbound_packet a cookie_ack ∷ [],
    )
unfolding match_cookie is_opening
own_cookie a c s o = rw (s, match_cookie) (rw o (rw (same_bytes_refl c.cookie) refl))

-- Only the cookie that the endpoint issued opens the association: with any other, or before one was
-- issued, nothing changes and nothing is sent. With it, in the states of the handshake, the
-- association is established and acknowledges the cookie.
pub handle_cookie_echo-authentic :
    (a : Association) (c : ChunkCookieEcho)
    → (a.my_cookie ≢ some c.cookie → handle_cookie_echo a c ≡ (a, []))
      × (a.my_cookie ≡ some c.cookie
          → is_opening a.state ≡ true
          → ((handle_cookie_echo a c).0.state ≡ established)
            × ((handle_cookie_echo a c).1 ≡ outbound_packet a cookie_ack ∷ []))
unfolding handle_cookie_echo complete set_state
handle_cookie_echo-authentic a c = (other_cookie a c a.my_cookie, λ m o. opened m o)
  where
    opened :
        a.my_cookie ≡ some c.cookie
        → is_opening a.state ≡ true
        → ((match_cookie a c a.my_cookie).0.state ≡ established)
          × ((match_cookie a c a.my_cookie).1 ≡ outbound_packet a cookie_ack ∷ [])
    opened m o =
        let e = ap (match_cookie a c) m ∙ own_cookie a c (opening-distinct a.state o) o in
        (ap (λ x. x.0.state) e, ap (λ x. x.1) e)

accepted :
    (a : Association) (p : Packet) (i : ChunkInit) (fresh_cookie : List ℕ)
    → is_opening a.state ≡ true
    → handle_init a p i fresh_cookie ≡ accept_init a p i fresh_cookie
unfolding handle_init is_opening
accepted a p i fresh_cookie o = rw (opening-test a.state o, handle_init) refl

refused :
    (a : Association) (p : Packet) (i : ChunkInit) (fresh_cookie : List ℕ)
    → is_opening a.state ≡ false
    → handle_init a p i fresh_cookie ≡ (a, err err_handle_init_state)
unfolding handle_init is_opening
refused a p i fresh_cookie o = rw (closed-test a.state o, handle_init) refl

-- The INIT ACK chunk of the answer.
unfoldable ack : Association → Packet → ChunkInit → List ℕ → ChunkInit
unfolding accept_init
ack a p i fresh_cookie =
    let b = (accept_init a p i fresh_cookie).0 in
    set_supported_extensions (init_ack_params b (init_ack b i))

replied :
    (a : Association) (p : Packet) (i : ChunkInit) (fresh_cookie : List ℕ)
    → (accept_init a p i fresh_cookie).1
      ≡ ok (outbound_packet (accept_init a p i fresh_cookie).0 (init (ack a p i fresh_cookie)) ∷ [])
unfolding accept_init ack
replied a p i fresh_cookie = refl

-- An INIT that arrives in the states of the handshake is answered with an INIT ACK, whose parameters
-- are the cookie and the extensions, whatever parameters the INIT had. The peer's tag and the cookie
-- are kept, and the state stays. In any other state the answer is an error, and nothing changes.
pub handle_init-answers :
    (a : Association) (p : Packet) (i : ChunkInit) (fresh_cookie : List ℕ)
    → (is_opening a.state ≡ true
        → (c : ChunkInit) × ((handle_init a p i fresh_cookie).1
            ≡ ok (outbound_packet (handle_init a p i fresh_cookie).0 (init c) ∷ []))
          × (c.is_ack ≡ true)
          × (c.params
              ≡ state_cookie_param (cookie_or fresh_cookie a.my_cookie)
                ∷ supported_extensions (130 ∷ 192 ∷ [])
                ∷ [])
          × ((handle_init a p i fresh_cookie).0.peer_verification_tag ≡ i.initiate_tag)
          × ((handle_init a p i fresh_cookie).0.my_cookie
              ≡ some (cookie_or fresh_cookie a.my_cookie))
          × ((handle_init a p i fresh_cookie).0.state ≡ a.state))
      × (is_opening a.state ≡ false
          → handle_init a p i fresh_cookie ≡ (a, err err_handle_init_state))
unfolding ack accept_init init_ack_params set_supported_extensions
handle_init-answers a p i fresh_cookie = ((λ o. answered o), (λ o. refused a p i fresh_cookie o))
  where
    answered :
        is_opening a.state ≡ true
        → (c : ChunkInit) × ((handle_init a p i fresh_cookie).1
            ≡ ok (outbound_packet (handle_init a p i fresh_cookie).0 (init c) ∷ []))
          × (c.is_ack ≡ true)
          × (c.params
              ≡ state_cookie_param (cookie_or fresh_cookie a.my_cookie)
                ∷ supported_extensions (130 ∷ 192 ∷ [])
                ∷ [])
          × ((handle_init a p i fresh_cookie).0.peer_verification_tag ≡ i.initiate_tag)
          × ((handle_init a p i fresh_cookie).0.my_cookie
              ≡ some (cookie_or fresh_cookie a.my_cookie))
          × ((handle_init a p i fresh_cookie).0.state ≡ a.state)
    answered o =
        let e = accepted a p i fresh_cookie o in
        (
          ack a p i fresh_cookie,
          ap (λ x. x.1) e
              ∙ replied a p i fresh_cookie
              ∙ sym (ap (λ x. ok (outbound_packet x.0 (init (ack a p i fresh_cookie)) ∷ [])) e),
          refl,
          refl,
          ap (λ x. x.0.peer_verification_tag) e,
          ap (λ x. x.0.my_cookie) e,
          ap (λ x. x.0.state) e,
        )
