-- ===== src/Message.antt =====
-- crates/gravital-talk-core/src/message.rs: the message types of the protocol and their payloads.
mod Examples
pub mod ClientHello
pub mod ServerHello
pub mod KeyExchange
pub mod Confirm
pub mod Fec
pub mod Bitrate
pub mod AuthChallenge
pub mod AuthResponse
