-- ===== src/Stream/Write.antt =====
-- `write_sctp` of src/stream/mod.rs: what a write queues, what it refuses, and what it leaves behind
-- when it queues nothing.
use sctp.Base.{
  ℕ, ◌≤◌, ◌<◌, ◌≡◌, ◌≢◌, refl, Bool, true, false, List, [], ◌∷◌, ◌++◌, Option, none, some, ◌⊎◌,
  length, is_empty, All, All-map, ap, sym, ◌∙◌, arith, Bool-cases, inl, inr, add16, ltb,
}
use sctp.Error.{
  ok, err, err_stream_closed, err_outbound_packet_too_large, err_payload_data_state_not_exist,
}
use sctp.Association.State.{established, same_state, same_state-true, as_u8}
use sctp.Chunk.PayloadData.{ChunkPayloadData, PayloadProtocolIdentifier}
use sctp.Queue.Pending.{push_all}
use sctp.Queue.Pending.Order.{Messages, open_after, IsWhole}
use sctp.Queue.Pending.Push.{open_end, begins, queue_of, push_all-IsWhole, push_all-fields}
use sctp.Queue.Reassembly.Bytes.{payload}
use sctp.Stream.{
  Stream, Shared, packetize, packetize_loop, write_sctp, send_payload_data, send_packetized,
  is_shutting_down, count_message, new_flags,
}
use sctp.Stream.Packetize.{Framed, IsFragment, IsCut, goes_unordered, packetize_lem}

module _ (s : Stream) (ppi : PayloadProtocolIdentifier) (u : Bool) (cell : ℕ) where
  Framed-rest :
      (c : ChunkPayloadData) (cs : List ChunkPayloadData)
      → IsFragment s ppi u cell c
      → c.ending_fragment ≡ is_empty cs
      → Framed false cs
      → All (IsFragment s ppi u cell) cs
      → Messages (open_after c) cs × (open_end (open_after c) cs ≡ none)
  Framed-rest c [] k e f a = (tt, rw e refl)
  Framed-rest c (d ∷ ds) k e f a =
      let r = Framed-rest d ds a.0 f.1 f.2 a.1 in
      rw e
        ((f.0, a.0.same_stream ∙ sym k.same_stream, a.0.same_number ∙ sym k.same_number, r.0), r.1)

  -- The fragments of one message are one whole message for the pending queue.
  pub IsCut-Messages :
      (raw : List ℕ) (cs : List ChunkPayloadData)
      → IsCut s ppi u cell true raw cs
      → Messages none cs × (open_end none cs ≡ none) × All (λ c. c.unordered ≡ u) cs
  IsCut-Messages raw [] k = (tt, refl, tt)
  IsCut-Messages raw (c ∷ cs) k =
      let f = k.framed in
      let r = Framed-rest c cs k.fragments.0 f.1 f.2 k.fragments.1 in
      (
        (f.0, r.0),
        r.1,
        All-map (IsFragment s ppi u cell) (λ d. d.unordered ≡ u) (c ∷ cs) (λ d v. v.same_order)
            k.fragments,
      )

-- The conditions under which a write is taken.
pub record IsOpen (s : Stream) (h : Shared) (p : List ℕ) : Type 0 where
  pub still_writing : s.write_shutdown ≡ false
  pub not_too_large : length p ≤ h.max_message_size
  pub is_established : h.state ≡ established

write_sctp-accepted :
    (s s' : Stream) (h h' : Shared) (p : List ℕ) (ppi : PayloadProtocolIdentifier)
    (cs : List ChunkPayloadData)
    → s.write_shutdown ≡ false
    → ltb h.max_message_size (length p) ≡ false
    → is_shutting_down h.state ≡ false
    → packetize s h p ppi ≡ some (cs, s', h')
    → write_sctp s h p ppi ≡ send_packetized (some (cs, s', h')) (length p)
unfolding write_sctp
write_sctp-accepted s s' h h' p ppi cs a b c e = ground arith

write_sctp-closed :
    (s : Stream) (h : Shared) (p : List ℕ) (ppi : PayloadProtocolIdentifier)
    → s.write_shutdown ≡ true
    → write_sctp s h p ppi ≡ some (s, h, err err_stream_closed)
unfolding write_sctp
write_sctp-closed s h p ppi a = ground arith

write_sctp-too_large :
    (s : Stream) (h : Shared) (p : List ℕ) (ppi : PayloadProtocolIdentifier)
    → s.write_shutdown ≡ false
    → ltb h.max_message_size (length p) ≡ true
    → write_sctp s h p ppi ≡ some (s, h, err err_outbound_packet_too_large)
unfolding write_sctp
write_sctp-too_large s h p ppi a b = ground arith

write_sctp-shutting_down :
    (s : Stream) (h : Shared) (p : List ℕ) (ppi : PayloadProtocolIdentifier)
    → s.write_shutdown ≡ false
    → ltb h.max_message_size (length p) ≡ false
    → is_shutting_down h.state ≡ true
    → write_sctp s h p ppi ≡ some (s, h, err err_stream_closed)
unfolding write_sctp
write_sctp-shutting_down s h p ppi a b c = ground arith

send_packetized-established :
    (s : Stream) (h : Shared) (cs : List ChunkPayloadData) (n : ℕ)
    → same_state h.state established ≡ true
    → send_packetized (some (cs, s, h)) n
      ≡ some (s, record h { pending_queue = push_all h.pending_queue cs }, ok n)
unfolding send_packetized send_payload_data
send_packetized-established s h cs n e = ground arith

send_packetized-refused :
    (s : Stream) (h : Shared) (cs : List ChunkPayloadData) (n : ℕ)
    → same_state h.state established ≡ false
    → send_packetized (some (cs, s, h)) n ≡ some (s, h, err err_payload_data_state_not_exist)
unfolding send_packetized send_payload_data
send_packetized-refused s h cs n e = ground arith

-- A write on an open stream (`max_payload_size` not 0) queues the whole message in its class,
-- behind what waits there, in fragments that keep the queue made of whole messages, provided the
-- class ended at a message's end; it answers the message's length.
pub write_sctp-IsWhole :
    (s : Stream) (h : Shared) (p : List ℕ) (ppi : PayloadProtocolIdentifier)
    (last : Option ChunkPayloadData)
    → 0 < s.max_payload_size
    → IsOpen s h p
    → IsWhole last h.pending_queue
    → open_end
        (begins (goes_unordered s ppi) last h.pending_queue)
        (queue_of (goes_unordered s ppi) h.pending_queue)
      ≡ none
    → (cs : List ChunkPayloadData) × (h' : Shared) × (write_sctp s h p ppi
        ≡ some (count_message s (goes_unordered s ppi) (length p), h', ok (length p)))
      × (queue_of (goes_unordered s ppi) h'.pending_queue
          ≡ queue_of (goes_unordered s ppi) h.pending_queue ++ cs)
      × (payload cs ≡ p)
      × IsWhole last h'.pending_queue
unfolding write_sctp new_flags as_u8
write_sctp-IsWhole s h p ppi last m o w z =
    let (cs, e, k) = packetize_lem s h p ppi m in
    let g = IsCut-Messages s ppi (goes_unordered s ppi) h.next_cell p cs k in
    let shut : is_shutting_down h.state ≡ false = ap is_shutting_down o.is_established ∙ refl in
    let est : same_state h.state established ≡ true =
      ap (λ t. same_state t established) o.is_established in
    (
      cs,
      record (new_flags h) { pending_queue = push_all h.pending_queue cs },
      write_sctp-accepted s _ h _ p ppi cs o.still_writing (ground arith) shut e
          ∙ send_packetized-established (count_message s (goes_unordered s ppi) (length p))
              (new_flags h) cs (length p) est,
      (push_all-fields cs (goes_unordered s ppi) h.pending_queue g.2).0,
      k.whole,
      (push_all-IsWhole (goes_unordered s ppi) cs last h.pending_queue w g.2 g.0 g.1 z).0,
    )

-- Every write (`max_payload_size` not 0) comes to one of five ends. On a shut stream, past the largest
-- message, or while the association shuts down it changes nothing and fails. Established, it queues
-- the message. In any other state it has counted the message by then, its number and its bytes,
-- queues nothing and fails.
pub write_sctp-ends :
    (s : Stream) (h : Shared) (p : List ℕ) (ppi : PayloadProtocolIdentifier)
    → 0 < s.max_payload_size
    → ((s.write_shutdown ≡ true) × (write_sctp s h p ppi ≡ some (s, h, err err_stream_closed)))
      ⊎ ((s.write_shutdown ≡ false)
          × (h.max_message_size < length p)
          × (write_sctp s h p ppi ≡ some (s, h, err err_outbound_packet_too_large)))
      ⊎ ((s.write_shutdown ≡ false)
          × (length p ≤ h.max_message_size)
          × (is_shutting_down h.state ≡ true)
          × (write_sctp s h p ppi ≡ some (s, h, err err_stream_closed)))
      ⊎ (IsOpen s h p
          × ((cs : List ChunkPayloadData) × (write_sctp s h p ppi
                ≡ some (
                  count_message s (goes_unordered s ppi) (length p),
                  record (new_flags h) { pending_queue = push_all h.pending_queue cs },
                  ok (length p),
                ))
              × (payload cs ≡ p)))
      ⊎ ((s.write_shutdown ≡ false)
          × (length p ≤ h.max_message_size)
          × (is_shutting_down h.state ≡ false)
          × (h.state ≢ established)
          × (write_sctp s h p ppi
              ≡ some (
                count_message s (goes_unordered s ppi) (length p),
                new_flags h,
                err err_payload_data_state_not_exist,
              )))
unfolding new_flags as_u8
write_sctp-ends s h p ppi m =
    let (cs, k, cut) = packetize_lem s h p ppi m in
    let counted = count_message s (goes_unordered s ppi) (length p) in
    elim (Bool-cases s.write_shutdown) [
      | inl a ↦ inl (a, write_sctp-closed s h p ppi a)
      | inr a ↦ elim (Bool-cases (ltb h.max_message_size (length p))) [
        | inl b ↦ inr (inl (a, ground (arith, b), write_sctp-too_large s h p ppi a b))
        | inr b ↦ elim (Bool-cases (is_shutting_down h.state)) [
          | inl c ↦
              inr (inr (inl (a, ground (arith, b), c, write_sctp-shutting_down s h p ppi a b c)))
          | inr c ↦ elim (Bool-cases (same_state h.state established)) [
            | inl e ↦ inr (
                inr (
                  inr (
                    inl (
                      record {
                        still_writing = a;
                        not_too_large = ground (arith, b);
                        is_established = same_state-true h.state established e;
                      },
                      (
                        cs,
                        write_sctp-accepted s _ h _ p ppi cs a b c k
                            ∙ send_packetized-established counted (new_flags h) cs (length p) e,
                        cut.whole,
                      ),
                    ))))
            | inr e ↦ inr (
                inr (
                  inr (
                    inr (
                      a,
                      ground (arith, b),
                      c,
                      (λ q. ground (arith, ap (λ t. same_state t established) q, e)),
                      write_sctp-accepted s _ h _ p ppi cs a b c k
                          ∙ send_packetized-refused counted (new_flags h) cs (length p) e,
                    ))))
          ]
        ]
      ]
    ]

-- An empty ordered message on an open stream is accepted, and its number is taken although no
-- chunk carries it.
pub write_sctp-empty :
    (s : Stream) (h : Shared) (ppi : PayloadProtocolIdentifier)
    → IsOpen s h []
    → goes_unordered s ppi ≡ false
    → (h' : Shared) × (write_sctp s h [] ppi ≡ some (count_message s false 0, h', ok 0))
      × (h'.pending_queue ≡ h.pending_queue)
      × ((count_message s false 0).sequence_number ≡ add16 s.sequence_number 1)
unfolding packetize packetize_loop count_message new_flags push_all as_u8
write_sctp-empty s h ppi o u =
    let shut : is_shutting_down h.state ≡ false = ap is_shutting_down o.is_established in
    let est : same_state h.state established ≡ true =
      ap (λ t. same_state t established) o.is_established in
    (
      record (new_flags h) { pending_queue = push_all h.pending_queue [] },
      write_sctp-accepted s _ h _ [] ppi [] o.still_writing (ground arith) shut
            (ap (λ b. some ([], count_message s b 0, new_flags h)) u)
          ∙ send_packetized-established (count_message s false 0) (new_flags h) [] 0 est,
      refl,
      refl,
    )
