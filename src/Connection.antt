-- ===== src/Connection.antt =====
-- ntied-transport/src/connection.rs: an encrypted connection between two peers.
pub mod State
pub mod Handshake
pub mod Loop
pub mod Established
pub mod Numbering
pub mod Fresh
pub mod Nonces
pub mod Rotation
pub mod Admission
pub mod Setup
pub mod Sealing
pub mod Delivery
