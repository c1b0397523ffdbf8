-- ===== src/Host.antt =====
-- The dashboard of a backup host.
pub mod Inventory
