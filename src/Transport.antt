-- ===== src/Transport.antt =====
-- The exchange of bytes and frames over a connection.
pub mod Channel
pub mod Frames
pub mod Order
pub mod Transfer
mod Examples
