-- ===== src/Association/Timeouts.antt =====
-- src/association/association_internal.rs: what the association does when a retransmission timer
-- expires, and when one gives up. Failures to send again are only logged by the source.
use mathlib.Core.Option.{some-injective}
use sctp.Base.{
  ℕ, ◌*◌, ◌/◌, ◌%◌, ◌^◌, ◌≡◌, refl, sym, ap, ◌∙◌, true, false, List, ◌∷◌, [], ◌++◌, some, max,
  if◌then◌else◌, ◌||◌, map, arith, Bool-cases, inl, inr, ◌==◌,
}
use sctp.Base.Assoc.{lookup}
use sctp.Error.{err_handshake_init_ack, err_handshake_cookie_echo}
use sctp.Chunk.PayloadData.{ChunkPayloadData, Cells, abandoned}
use sctp.Queue.Payload as Payload
use sctp.Queue.Payload.{mark_all_to_retrasmit, mark_to_retransmit}
use sctp.Sna.{sna32gt}
use sctp.Association.State.{same_state, shutdown_sent, shutdown_ack_sent}
use sctp.Association.Internal.{Association, awake_write_loop}
use sctp.Association.Create.{send_init}
use sctp.Association.Handshake.{send_cookie_echo}
use sctp.Association.Sack.Handle.{skip_abandoned}

pub data RtxTimerId : Type 0 where
  t1_init : RtxTimerId
  t1_cookie : RtxTimerId
  t2_shutdown : RtxTimerId
  t3_rtx : RtxTimerId
  reconfig_timer : RtxTimerId

-- RFC 3758, section 3.5, after a timeout: the advanced point moves over the abandoned chunks behind it.
unfoldable pub advance_peer_tsn_ack_point : Association → Association
unfolding skip_abandoned
advance_peer_tsn_ack_point a =
    let point = skip_abandoned (Payload.len a.inflight_queue) a a.advanced_peer_tsn_ack_point in
    record a {
      advanced_peer_tsn_ack_point = point;
      will_send_forward_tsn =
          if sna32gt point a.cumulative_tsn_ack_point then true else a.will_send_forward_tsn;
    }

-- The windows after a T3 timeout.
unfoldable pub slow_start : Association → Association
slow_start a = record a { ssthresh = max (a.cwnd / 2) (4 * a.mtu % 2 ^ 32); cwnd = a.mtu }

unfoldable pub on_t3_timeout : Association → Association
unfolding advance_peer_tsn_ack_point slow_start awake_write_loop
on_t3_timeout a =
    let b = slow_start a in
    let c = if b.use_forward_tsn then advance_peer_tsn_ack_point b else b in
    awake_write_loop (record c { inflight_queue = mark_all_to_retrasmit c.cells c.inflight_queue })

unfoldable pub on_retransmission_timeout : Association → RtxTimerId → Association
unfolding send_init send_cookie_echo awake_write_loop on_t3_timeout
on_retransmission_timeout a t1_init = (send_init a).0
on_retransmission_timeout a t1_cookie = (send_cookie_echo a).0
on_retransmission_timeout a t2_shutdown =
    if same_state a.state shutdown_sent
    then awake_write_loop (record a { will_send_shutdown = true })
    else if same_state a.state shutdown_ack_sent
    then awake_write_loop (record a { will_send_shutdown_ack = true })
    else a
on_retransmission_timeout a t3_rtx = on_t3_timeout a
on_retransmission_timeout a reconfig_timer =
    awake_write_loop (record a { will_retransmit_reconfig = true })

-- Only the handshake's timers give up; the application is told why.
unfoldable pub on_retransmission_failure : Association → RtxTimerId → Association
on_retransmission_failure a t1_init = record a {
  handshake_completed = a.handshake_completed ++ (some err_handshake_init_ack ∷ []);
}
on_retransmission_failure a t1_cookie = record a {
  handshake_completed = a.handshake_completed ++ (some err_handshake_cookie_echo ∷ []);
}
on_retransmission_failure a _ = a

mark_to_retransmit_key :
    (cells : Cells) (entry : ℕ × ChunkPayloadData) → (mark_to_retransmit cells entry).0 ≡ entry.0
unfolding mark_to_retransmit
mark_to_retransmit_key cells entry = ground arith

mark_to_retransmit_lost :
    (cells : Cells) (k : ℕ) (c : ChunkPayloadData)
    → (c.acked || abandoned cells c) ≡ false
    → (mark_to_retransmit cells (k, c)).1 ≡ record c { retransmit = true }
unfolding mark_to_retransmit
mark_to_retransmit_lost cells k c n = rw n refl

lookup_here :
    (tsn : ℕ) (entry : ℕ × ChunkPayloadData) (rest : List (ℕ × ChunkPayloadData))
    → (entry.0 == tsn) ≡ true
    → lookup tsn (entry ∷ rest) ≡ some entry.1
unfolding lookup
lookup_here tsn entry rest e = rw (e, lookup) refl

lookup_past :
    (tsn : ℕ) (entry : ℕ × ChunkPayloadData) (rest : List (ℕ × ChunkPayloadData))
    → (entry.0 == tsn) ≡ false
    → lookup tsn (entry ∷ rest) ≡ lookup tsn rest
unfolding lookup
lookup_past tsn entry rest e = rw (e, lookup) refl

lookup-mark-entry :
    (cells : Cells) (tsn : ℕ) (entry : ℕ × ChunkPayloadData) (rest : List (ℕ × ChunkPayloadData))
    (c : ChunkPayloadData)
    → lookup tsn (entry ∷ rest) ≡ some c
    → (c.acked || abandoned cells c) ≡ false
    → (lookup tsn rest ≡ some c
        → lookup tsn (map (mark_to_retransmit cells) rest) ≡ some (record c { retransmit = true }))
    → lookup tsn (map (mark_to_retransmit cells) (entry ∷ rest))
      ≡ some (record c { retransmit = true })
lookup-mark-entry cells tsn entry rest c h n ih = elim (Bool-cases (entry.0 == tsn)) [
  | inl e ↦
      let q : entry.1 ≡ c = some-injective entry.1 c (sym (lookup_here tsn entry rest e) ∙ h) in
      lookup_here tsn (mark_to_retransmit cells entry) (map (mark_to_retransmit cells) rest)
        (ap (λ k. k == tsn) (mark_to_retransmit_key cells entry) ∙ e)
      ∙ ap (λ d. some (mark_to_retransmit cells (entry.0, d)).1) q
      ∙ ap some (mark_to_retransmit_lost cells entry.0 c n)
  | inr e ↦
      lookup_past tsn (mark_to_retransmit cells entry) (map (mark_to_retransmit cells) rest)
        (ap (λ k. k == tsn) (mark_to_retransmit_key cells entry) ∙ e)
      ∙ ih (sym (lookup_past tsn entry rest e) ∙ h)
]

lookup-mark :
    (cells : Cells) (tsn : ℕ) (chunks : List (ℕ × ChunkPayloadData)) (c : ChunkPayloadData)
    → lookup tsn chunks ≡ some c
    → (c.acked || abandoned cells c) ≡ false
    → lookup tsn (map (mark_to_retransmit cells) chunks) ≡ some (record c { retransmit = true })
unfolding lookup
lookup-mark cells tsn [] c h n = ground arith
lookup-mark cells tsn (entry ∷ rest) c h n =
    lookup-mark-entry cells tsn entry rest c h n (λ e. lookup-mark cells tsn rest c e n)

on_t3_timeout_queue :
    (a : Association)
    → (on_t3_timeout a).inflight_queue ≡ mark_all_to_retrasmit a.cells a.inflight_queue
unfolding on_t3_timeout advance_peer_tsn_ack_point slow_start
on_t3_timeout_queue a = ground arith

-- After a T3 timeout the window is one MTU, the threshold is half the old window or four MTUs, the
-- product wrapping around at 2^32, and every chunk in flight that is neither acknowledged nor
-- abandoned is marked to be sent again.
pub on_t3_timeout-restarts :
    (a : Association)
    → ((on_retransmission_timeout a t3_rtx).cwnd ≡ a.mtu)
      × ((on_retransmission_timeout a t3_rtx).ssthresh ≡ max (a.cwnd / 2) (4 * a.mtu % 2 ^ 32))
      × ((tsn : ℕ) (c : ChunkPayloadData)
          → Payload.get a.inflight_queue tsn ≡ some c
          → (c.acked || abandoned a.cells c) ≡ false
          → Payload.get (on_retransmission_timeout a t3_rtx).inflight_queue tsn
            ≡ some (record c { retransmit = true }))
unfolding on_retransmission_timeout on_t3_timeout slow_start Payload.get mark_all_to_retrasmit
on_t3_timeout-restarts a = (ground arith, ground arith, marked)
  where
    marked :
        (tsn : ℕ) (c : ChunkPayloadData)
        → Payload.get a.inflight_queue tsn ≡ some c
        → (c.acked || abandoned a.cells c) ≡ false
        → Payload.get (on_t3_timeout a).inflight_queue tsn ≡ some (record c { retransmit = true })
    marked tsn c h n =
        ap (λ q. Payload.get q tsn) (on_t3_timeout_queue a)
        ∙ lookup-mark a.cells tsn a.inflight_queue.chunk_map c h n
