-- ===== src/Modem.antt =====
-- components/modem_manager: the parsers of the modem's status lines, and the recovery policy.
pub mod Core
pub mod Recovery
pub mod Status
