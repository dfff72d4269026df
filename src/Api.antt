-- ===== src/Api.antt =====
-- components/api_common: what the HTTP and MQTT interfaces accept.
pub mod Rules
