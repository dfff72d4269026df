-- ===== src/Mqtt.antt =====
-- components/mqtt_service and the MQTT part of components/gateway_settings: which commands are taken
-- from the broker, and which settings are accepted.
pub mod Command
pub mod Config
