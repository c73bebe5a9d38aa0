-- ===== src/Lib.antt =====
-- Gravital Talk: a real-time voice protocol over datagrams, in Rust crates under crates/.
--
-- The parts, from the bytes up, and the files that model them:
--
-- - Wire: big-endian words, slices and `copy_from_slice` on lists of bytes, and the lemmas on
--   buffers that are written field by field. A buffer is a list of numbers below 256, a `&mut [u8]`
--   argument is a list that is passed in and returned.
-- - Protocol: crates/gravital-talk-core/src/error.rs (`Error`, `Error::code` as `error_code`) and
--   the constants of crates/gravital-talk-core/src/constants.rs.
-- - Header: crates/gravital-talk-core/src/header.rs, `PacketHeader` with `new`, `encode`, `decode`,
--   and `Flags`. `fields` lists the assignments of `encode`.
-- - Checksum: crates/gravital-talk-core/src/checksum.rs. `table` is built as `build_table` does,
--   `update` is the loop over the bytes. packet.rs repeats both (`crc_step`, `TABLE`), and its model
--   uses these. Words of 16 bits are numbers with the shift written out (`crc * 256 % 65536`).
-- - Packet: crates/gravital-talk-core/src/packet.rs, `PacketView::decode` as `decode` and
--   `PacketBuilder::encode` as `encode`. It uses Header and Checksum.
-- - MessageType and ErrorCode: the codes in crates/gravital-talk-core/src/message.rs.
-- - Message: the payloads of message.rs, one file for each, with `decode` and `encode`.
-- - Fragment: crates/gravital-talk-core/src/fragment.rs, the reassembler (`new`, `insert`,
--   `is_complete`, `finish`), and Fragment/Header, the sub-header.
-- - SessionState: crates/gravital-talk-core/src/session.rs. `next_state` is the match of
--   `SessionStateMachine::transition`; `transition` returns the machine and the result.
-- - Floor: crates/gravital-talk-core/src/floor.rs. `arm` is the match of
--   `FloorController::transition`; Floor/Payload is the payload of the floor messages.
-- - Fec: crates/gravital-talk-transport/src/fec.rs, `FecEncoder` (`new_encoder`, `push`) and
--   `FecDecoder` (`new_decoder`, `push_data`, `push_parity`, `reset`).
-- - JitterBuffer: crates/gravital-talk-transport/src/jitter_buffer.rs. Each operation is one step on
--   the record of the atomic fields; the producer and the consumer do not interleave inside one.
-- - Congestion: crates/gravital-talk-transport/src/congestion.rs. `none` is a panic of `u32::clamp`;
--   the floating-point comparison and products are the parameters `Floats`.
-- - Router: crates/gravital-talk-relay/src/router.rs, `route`, `evict_idle`, `floor_request` and
--   `floor_release`; Router/Views is what it shows of sessions and rooms. The clock is an argument
--   in nanoseconds, addresses and channels are the parameters `Peers`, and a `DashMap` is an
--   association list. Router/Calls runs calls in sequence.
-- - Rooms: crates/gravital-talk-relay/src/rooms.rs, `generate_code`, `is_valid_code` and
--   `generate_session_id`; Rooms/Table is the field `rooms` of the router with `register_room`,
--   `resolve_room` and `remove_room`.
-- - Stun: crates/gravital-talk-transport/src/stun.rs, `build_binding_request`,
--   `parse_binding_response` and `do_stun_exchange` on what arrives.
-- - Codec: crates/gravital-talk-codec/src, the codes of codecs, `negotiate`, and in Codec/Pcm the
--   codec of uncompressed samples.
-- - Crypto: crates/gravital-talk-core/src/crypto.rs, `make_nonce`, `encrypt_in_place` and
--   `decrypt_in_place`. ChaCha20-Poly1305 is the parameter `Aead` with the laws that RFC 8439 gives
--   it.
-- - Metrics: crates/gravital-talk-metrics/src, the counters and the estimators of round trip time,
--   jitter and loss, before their conversion to floating point.
-- - Session: crates/gravital-talk-transport/src/session.rs, the driver that puts the other parts
--   together. Session is the record of its state and the type `Step` of its operations,
--   Session/Sending what it sends, Session/Receiving what it does with what arrives, Session/Keys,
--   Client, Server and Handshake the handshake of both roles. A datagram given to the transport is
--   appended to the field `outbox`; what arrives is an argument, and the clock and what is drawn at
--   random are arguments too. The socket is the parameter `Transport`, X25519 and HKDF are the
--   parameter `KeyAgreement`.
--
-- An operation that changes its receiver returns the receiver after the call with the result. A
-- `Result` of the source is `Common.Result`, its `?` is bind. The loops of the modelled code run
-- over lists or a fixed count. There is fuel in two places: `next_power_of_two` has the 31 doublings
-- that stay in 32 bits, and the loop over the attributes of a STUN answer has the length of the
-- buffer, where every round takes at least four bytes. A loop that waits for datagrams runs over the
-- list of what arrives: in a handshake its end is the deadline.
--
-- The modules named Examples hold tests on concrete inputs.
--
-- Not modelled: sockets, discovery, name resolution and timers of crates/gravital-talk-transport,
-- devices (crates/gravital-talk-io), libopus (crates/gravital-talk-codec), identities (identity.rs of
-- crates/gravital-talk-core), the call quality of crates/gravital-talk-metrics, the server loops of
-- crates/gravital-talk-relay, bindings and the command line. Most of these are
-- input and output, floating point or calls of other libraries. Operations of a session that run at
-- the same time do not interleave in the model.
pub mod Common
pub mod Wire
pub mod Protocol
pub mod Header
pub mod Checksum
pub mod Packet
pub mod Message
pub mod Floor
pub mod Fragment
pub mod MessageType
pub mod ErrorCode
pub mod SessionState
pub mod Fec
pub mod Congestion
pub mod JitterBuffer
pub mod Router
pub mod Codec
pub mod Crypto
pub mod Metrics
pub mod Session
pub mod Stun
pub mod Rooms
