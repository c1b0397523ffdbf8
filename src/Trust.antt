-- ===== src/Trust.antt =====
-- host_trust.rs: the public keys that a backup host trusts.
pub mod Keys
pub mod File
pub mod Quote
pub mod Counting
pub mod Append
pub mod Remove
pub mod Refined
pub mod Torn
