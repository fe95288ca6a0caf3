-- ===== src/Lib.antt =====
-- An SCTP endpoint for WebRTC data channels (RFC 4960, with partial reliability of RFC 3758),
-- modelled from this repository's Rust code. The program's parts and where they are modelled:
--
-- - src/util.rs: Sna. Serial-number comparison of TSNs and stream sequence numbers, and padding.
-- - src/error.rs: Error, with the outcomes of fallible code, an abort among them; the bytes crate's
--   operations are the record Bytes.Buf, with the laws that the code relies on.
-- - src/param/: Param. Kind has the types, Values the parameters and their writers, Build the parsers.
-- - src/chunk/: Chunk. PayloadData is a DATA chunk with its two shared flags; Header is the chunk
--   header, and each other chunk has a module for its data and its codec.
-- - src/packet.rs: Packet. Codec has `marshal` and `unmarshal`, Check `check_packet`.
-- - src/timer/: Timer. Rto is the retransmission timeout, Rtx and Ack the two timers.
-- - src/queue/pending_queue.rs: Queue/Pending. Fragments that wait to be sent; Accounting, Order
--   and Push hold what is shown of them.
-- - src/queue/payload_queue.rs: Queue/Payload. Chunks by TSN, received or in flight.
-- - src/queue/reassembly_queue.rs: Queue/Reassembly, with the chunk sets in Fragments.
-- - src/stream/mod.rs: Stream. `packetize`, `write_sctp`, `read_sctp`, `shutdown`, the amounts.
-- - src/association/: Association. State has the states, Internal the record of fields; Sack and
--   Sack/Handle are `handle_sack` and what it calls, Receive is DATA, FORWARD-TSN, stream resets
--   and acknowledgements, Send moves chunks in flight and bundles them, Teardown is the shutdown.
--   Create makes an association, Handshake answers INIT, INIT ACK, COOKIE ECHO, COOKIE ACK and
--   HEARTBEAT, Inbound checks and dispatches what arrives, Timeouts is what an expired timer does,
--   Gather is `gather_outbound`, and Inbound/Network has `read_loop`, over bytes, and joins two
--   endpoints, whose packets are handed over as values.
--
-- A stream's `write_sctp` cuts a message into fragments and pushes them into the pending queue that
-- it shares with the association (`Shared`). The association moves them to `inflight_queue` as its
-- windows allow, and takes them out again as SACKs arrive. What the peer sends goes by
-- `handle_data` to `payload_queue`, for the acknowledgements, and to the stream's reassembly queue,
-- which `read_sctp` reads.
--
-- How the code corresponds. A handler is a function from the state to the state and its answer;
-- `Result` has the error, and an error keeps the state that was reached. `Arc`s of flags are
-- addresses in a store (`Cells`), a `HashMap` is an association list, `sort_by` a stable insertion
-- sort, time an argument. Arithmetic is that of a release build: `u16`, `u32` and 64-bit `usize`
-- wrap, written out (`add16`, `add32`, `add64`). Each handler is one step, as it runs under the
-- association's lock; `push` of the pending queue is one too. `shutdown` takes no lock: it is the
-- composition of its check and three parts, between which a handler may come.
--
-- Loops. Those over a list are structural. A loop over TSNs up to a bound runs on the number of
-- steps to the bound modulo 2^32, which is how often the source's loop runs at most. One that pops
-- the front of a queue runs on the queue's length, one over consecutive TSNs in flight on the number
-- of chunks there, `packetize` on the message's length, where it gives `none` on running out, as it
-- does when `max_payload_size` is 0 and the source's loop does not end.
--
-- A parser's loop runs on the number of bytes that are left, and reads one byte or more per round.
--
-- Parameters of the model: the bytes crate (`Buf`; Bytes/BigEndian shows that its laws can hold), the
-- crc crate (a function from bytes to a number), random numbers and the random cookie, the time, and
-- the three calculations on `f64` of the timeout's manager (`Floats`). An operation of the source
-- that panics, as a slice out of range, gives `panicked`.
--
-- Not modelled: the tasks that sleep for a timer (in the association a retransmission timer is
-- whether it runs, the acknowledgement timer the record of timer/ack_timer.rs), the write loop
-- around `gather_outbound`, tokio's channels, `PollStream`, `Display`, statistics and log lines.
pub mod Base
pub mod Error
pub mod Bytes
pub mod Sna
pub mod Param
pub mod Chunk
pub mod Packet
pub mod Timer
pub mod Queue
pub mod Stream
pub mod Association
pub mod Examples
