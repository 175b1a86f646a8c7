-- ===== src/Resources/Sound.antt =====
-- The reading functions of the types of the API do not panic.
pub mod Networks
pub mod Storage
pub mod Places
pub mod Hosts
