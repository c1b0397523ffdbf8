-- ===== src/Pairing.antt =====
-- pairing/: the six-digit code, the pairing listener, and the laptop's side.
pub mod Bits
pub mod Code
pub mod Listener
pub mod Client
pub mod Windows
pub mod Discovery
