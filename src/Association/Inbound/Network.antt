-- ===== src/Association/Inbound/Network.antt =====
-- src/association: two endpoints and the packets between them. `read_loop` of
-- src/association/mod.rs takes bytes; `hand_over` is the same loop over packets that are parsed, and
-- with it `round` carries the control queues of `gather_outbound` of
-- src/association/association_internal.rs from one endpoint to the other, as values.
pub mod Connect
use sctp.Base.{ℕ, ◌+◌, ◌*◌, ◌≡◌, refl, ap, ◌∙◌, List, [], ◌∷◌, length}
use sctp.Error.{Result, ok, err, panicked}
use sctp.Bytes.{Buf}
use sctp.Packet.{Packet}
use sctp.Packet.Codec.{unmarshal}
use sctp.Association.Internal.{Association}
use sctp.Association.Teardown.{close}
use sctp.Association.Inbound.{handle_packet, handle_inbound}

pub record Network : Type 0 where
  pub client : Association
  pub server : Association

-- The write loop takes all control packets at once.
unfoldable pub drain_control_queue : Association → List Packet × Association
drain_control_queue a = (a.control_queue, record a { control_queue = [] })

-- What follows a datagram: the next one, or, after an error, the end of the loop and `close`. A panic
-- ends the task.
unfoldable pub received :
    Association × Result (Unit {0}) → (Association → Association) → Association
unfolding close
received (a, ok _) next = next a
received (a, err e) next = close a
received (a, panicked) next = a

-- The read loop hands in datagram after datagram, and closes the association after an error. The
-- flags of parsed DATA chunks stand at the addresses from `fresh` on.
unfoldable pub read_loop :
    Buf
    → (crc : List ℕ → ℕ) → (now fresh : ℕ) → (fresh_cookie : List ℕ) → Association
    → List (List ℕ)
    → Association
unfolding handle_inbound received
read_loop buf crc now fresh fresh_cookie a [] = a
read_loop buf crc now fresh fresh_cookie a (raw ∷ raws) =
    let rest =
      λ (a : Association). read_loop buf crc now (fresh + 2 * length raw) fresh_cookie a raws in
    received (handle_inbound buf crc now fresh fresh_cookie a raw) rest

-- The loop over packets as values.
unfoldable pub hand_over :
    Buf → (now : ℕ) → (fresh_cookie : List ℕ) → Association → List Packet → Association
unfolding handle_packet received
hand_over buf now fresh_cookie a [] = a
hand_over buf now fresh_cookie a (p ∷ packets) =
    let rest = λ (a : Association). hand_over buf now fresh_cookie a packets in
    received (handle_packet buf now fresh_cookie a p) rest

-- The datagrams parse to the packets.
unfoldable pub Parsed :
    Buf → (crc : List ℕ → ℕ) → (now fresh : ℕ) → List (List ℕ) → List Packet → Type 0
Parsed buf crc now fresh [] [] = Unit
Parsed buf crc now fresh (raw ∷ raws) (p ∷ packets) =
    (unmarshal buf crc now fresh raw ≡ ok p)
    × Parsed buf crc now (fresh + 2 * length raw) raws packets
Parsed buf crc now fresh _ _ = ⊥

received-ap :
    (x : Association × Result (Unit {0})) (f g : Association → Association)
    → ((a : Association) → f a ≡ g a)
    → received x f ≡ received x g
unfolding received
received-ap (a, ok u) f g h = h a
received-ap (a, err e) f g h = refl
received-ap (a, panicked) f g h = refl

handle_inbound-parsed :
    (buf : Buf) (crc : List ℕ → ℕ) (now fresh : ℕ) (cookie : List ℕ) (a : Association)
    (raw : List ℕ) (p : Packet)
    → unmarshal buf crc now fresh raw ≡ ok p
    → handle_inbound buf crc now fresh cookie a raw ≡ handle_packet buf now cookie a p
unfolding handle_inbound
handle_inbound-parsed buf crc now fresh cookie a raw p e = rw (e, handle_inbound) refl

-- On datagrams that parse the read loop does what `hand_over` does with the packets.
pub read_loop-hand_over :
    (buf : Buf) (crc : List ℕ → ℕ) (now fresh : ℕ) (cookie : List ℕ) (a : Association)
    (raws : List (List ℕ)) (packets : List Packet)
    → Parsed buf crc now fresh raws packets
    → read_loop buf crc now fresh cookie a raws ≡ hand_over buf now cookie a packets
unfolding read_loop hand_over Parsed
read_loop-hand_over buf crc now fresh cookie a [] [] h = refl
read_loop-hand_over buf crc now fresh cookie a [] (p ∷ packets) h = absurd h
read_loop-hand_over buf crc now fresh cookie a (raw ∷ raws) [] h = absurd h
read_loop-hand_over buf crc now fresh cookie a (raw ∷ raws) (p ∷ packets) (e, r) =
    ap (λ x. received x (λ b. read_loop buf crc now (fresh + 2 * length raw) cookie b raws))
      (handle_inbound-parsed buf crc now fresh cookie a raw p e)
    ∙ received-ap (handle_packet buf now cookie a p) _ _
        (λ b. read_loop-hand_over buf crc now (fresh + 2 * length raw) cookie b raws packets r)

-- The client's control packets reach the server, and then the server's reach the client, as values.
unfoldable pub round : Buf → (now : ℕ) → (fresh_cookie : List ℕ) → Network → Network
unfolding drain_control_queue hand_over
round buf now fresh_cookie n =
    let (ps, client) = drain_control_queue n.client in
    let (qs, server) = drain_control_queue (hand_over buf now fresh_cookie n.server ps) in
    record { client = hand_over buf now fresh_cookie client qs; server = server }
