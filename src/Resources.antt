-- ===== src/Resources.antt =====
-- The types of the API: their fields and how they are read from answers.
pub mod Sound
pub mod Networks
pub mod Fabrics
pub mod Nics
pub mod Places
pub mod Storage
pub mod Hosts
