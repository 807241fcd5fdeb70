-- ===== src/Lib.antt =====
-- A verification library for dquic, a QUIC implementation in Rust. It models the parts of qbase,
-- qrecovery and qcongestion that decide what a connection does, as functions that can be run, and
-- proves what makes them correct.
--
-- The parts and how they meet. A packet carries frames. Its packet number is shortened on the
-- wire and restored by the receiver (qbase/src/packet/number.rs), which keeps the numbers it has
-- received as ranges and refuses duplicates (qrecovery/src/journal/rcvd.rs). Integers in frames
-- are variable-length (qbase/src/varint.rs), a frame type is such an integer, and rules say which
-- packet may carry which frame (qbase/src/frame.rs). Streams are named by identifiers
-- (qbase/src/sid.rs) that each side allocates within the limit its peer grants
-- (qbase/src/sid/local_sid.rs), while the peer's streams are accepted within the limit granted to
-- it (qbase/src/sid/remote_sid.rs) by a policy (qbase/src/sid/handy.rs). What a stream or a
-- handshake sends waits in a send buffer, whose map remembers which bytes are pending, in flight,
-- received or lost (qrecovery/src/send/sndbuf.rs). The bytes on all streams together are limited
-- by connection flow control (qbase/src/flow.rs). The tracked ranges become the ACK frame that
-- the peer gets (qbase/src/frame/ack.rs), and what it sends is also limited by congestion control
-- (qcongestion/src/algorithm/new_reno.rs). Queues that are indexed by enqueue number serve
-- several of these (qbase/src/util/index_deque.rs).
--
-- The files, each with a module Runs below it that holds the runs at concrete values:
--   Base: shared names; Base/Bits, Base/Lists, Base/Tests: lemmas on bits, lists and tests.
--   Packet: Packet/Number: packet numbers; Number/Window: what decoding returns;
--     Number/RoundTrip: encoding and decoding.
--   Role: roles and directions.
--   Varint: variable-length integers; Varint/Codec: writing and reading; Varint/Input: reading
--     any input.
--   Frame: Frame/Kind: frame types; Kind/Codes: their codes; Kind/Rules: which packet carries
--     which frame; Frame/Stream: the STREAM frame (qbase/src/frame/stream.rs), with Stream/Fit;
--     Frame/Crypto: the CRYPTO frame (qbase/src/frame/crypto.rs), with Crypto/Capacity.
--   Sid: stream identifiers; Sid/Ids: their fields; Sid/Control: the policies; Sid/Local: the
--     streams of this endpoint, with Local/Alloc and Local/Wakers; Sid/Remote: those of the peer,
--     with Remote/Accept.
--   SendBuf: the send buffer (qrecovery/src/send/sndbuf.rs); SendBuf/State: Color and State;
--     SendBuf/Map, SendBuf/Ack, SendBuf/Loss and SendBuf/Pick: BufMap, its extend_to, sent and
--     searches, and ack_rcvd, shift, may_loss, mark_flighting_lost and pick; SendBuf/Buffer:
--     SendBuf; SendBuf/Paint and SendBuf/Valid: the view of the map as a colour for each
--     position, and its invariant; Splice, Neighbours, Cuts and Merge: how the operations cut the
--     queue of states; Ack/Colors, Loss/Colors, Pick/First and Growth: what the operations do to
--     the colours; Pick/Bounded: how often pick succeeds; Buffer/Concat, Buffer/Holds,
--     Buffer/PickUp and Buffer/Sent: the bytes in the buffer; Buffer/Steps, Buffer/Keeps and
--     Buffer/Reachable: any calls in any order.
--   Flow: flow control; Flow/Conserve: the sending side over any run; Flow/Window: the receiving
--     side; Flow/Peers: both, joined by a network.
--   Deque: the index deque; Deque/Lookup: its view as a partial function; Deque/Growth,
--     Deque/Insert, Deque/Resize, Deque/Shrink: what the operations do to that view.
--   Ack: the ACK frame, its size and its ranges (qbase/src/frame/ack.rs).
--   Received: received packet numbers; Received/Ranges: ranges as a set; Received/Room: when an
--     insertion takes one range more; Received/Insert: one insertion; Received/Once: any run;
--     Received/Acks: the ACK frame for them, with Acks/Below, Acks/Round, Acks/Loop, Acks/Frame
--     and Acks/Exact.
--   NewReno: congestion control (qcongestion/src/algorithm/new_reno.rs); NewReno/Lost: the loop
--     over the lost packets; NewReno/Window: what losses do to the window.
--
-- How the code is modelled. A Rust call returns or panics: Outcome in Base/Panics. A panic is a
-- failed assertion, expect or unwrap, an index out of bounds, or an overflow of u64 arithmetic,
-- which the debug profile checks; drain_to of the index deque, whose assertion is left out of the
-- unit tests, takes whether it is compiled in; add_u64, sub_u64 and mul_u64 write that out, and
-- casts and wrapping additions have their remainders written out. usize has 64 bits. An object
-- behind a mutex is a record, and each method that locks it is one step. Frames sent and wakers
-- woken are lists in the result. The crates bytes and nom are parameters with their documented
-- behaviour as laws (Base/Nom), which Base/Wire instantiates on lists of bytes. The policy for
-- streams is an interface (Sid/Control) that both policies of the source implement. Instants are
-- values of a type that is a parameter. In the map of a send buffer, binary_search_by is its
-- documented result on the increasing offsets that the map is shown to keep.
--
-- Bounds and fuel. No operation needs fuel: a loop over a queue recurses on the elements that it
-- has still to read. The exception is the iterator over the streams to create, which is drained
-- in as many rounds as the number of its last stream plus one, which its theorem shows to be
-- enough. Positions in a send buffer and limits are below 2^62 where the source sends them as
-- variable-length integers; the theorems say so where they need it.
--
-- Not modelled: input and output, timers, TLS, sockets, event logging, and the asynchronous tasks
-- between the parts; the codecs of the frames, the state machines of streams and the receive
-- buffer, loss detection, pacing, BBR and the connection identifiers are not modelled either.
pub mod Base
pub mod Packet
pub mod Role
pub mod Varint
pub mod Frame
pub mod Sid
pub mod Flow
pub mod Deque
pub mod Received
pub mod Ack
pub mod NewReno
pub mod SendBuf
