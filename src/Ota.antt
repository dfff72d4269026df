-- ===== src/Ota.antt =====
-- components/ota_service: the version policy of updates.
pub mod SemVer
pub mod Policy
