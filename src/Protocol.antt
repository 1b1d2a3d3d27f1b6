-- ===== src/Protocol.antt =====
-- common/src/squidprotocol: the frames that the nodes exchange.
pub mod Opcode
pub mod Frame
pub mod Message
pub mod Format
mod Examples
