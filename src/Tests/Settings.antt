-- ===== src/Tests/Settings.antt =====
-- The settings, the commands from the broker, and the rules of the interfaces
-- (tests/test_mqtt_config.c, tests/test_mqtt_command_policy.c, tests/test_api_common.c).
use esp32_sms_gateway.Base.{
  ◌+◌, ◌≡◌, ◌≤◌, ◌↔◌, ◌⊎◌, refl, Bool, true, false, some, length, codes, peek, str_eq, has_prefix,
  contains,
}
use esp32_sms_gateway.Mqtt.Command.{system_reboot, command_allowed}
use esp32_sms_gateway.Mqtt.Command.Retained.{Carries, command_allowed_lem}
use esp32_sms_gateway.Mqtt.Config
use esp32_sms_gateway.Mqtt.Config.{
  Config, ok, config_validate, config_defaults, topic_valid, base_topic_max, discovery_prefix_max,
  broker_valid, uri_is_tls, holds,
}
use esp32_sms_gateway.Mqtt.Config.Accepted.{IsE164, IsBroker, e164_valid_iff, config_validate_iff}
use esp32_sms_gateway.Api.Rules
use esp32_sms_gateway.Api.Rules.{
  at_command_allowed, at_response_prefix, starts_with_ignore_case, ends_line, command_name,
}
use esp32_sms_gateway.Api.Rules.Accepted.{e164_valid_lem, length-at_response_prefix}

reboot_pressed : command_allowed system_reboot false (some (codes "PRESS")) ≡ true
unfolding command_allowed str_eq
reboot_pressed = refl

command_allowed_lem_example :
    (command_allowed system_reboot true (some (codes "PRESS")) ≡ true)
    ↔ ((◌≡◌ {A = Bool} true false) × Carries system_reboot (some (codes "PRESS")))
command_allowed_lem_example = command_allowed_lem system_reboot true (some (codes "PRESS"))

abbrev config : Config
config = record (config_defaults (some (codes "abc"))) {
  enabled = true;
  broker_uri = codes "mqtts://broker:8883";
  default_recipient = codes "+491234567";
}

config_valid : config_validate (some config) ≡ ok
unfolding config_validate config_defaults topic_valid broker_valid uri_is_tls has_prefix contains
    Config.e164_valid
config_valid = refl

config_validate_iff_example : (config_validate (some config) ≡ ok) ↔ (
    (topic_valid (some config.base_topic) base_topic_max ≡ true)
    × (topic_valid (some config.discovery_prefix) discovery_prefix_max ≡ true)
    × ((peek config.default_recipient ≡ 0) ⊎ IsE164 config.default_recipient)
    × ((config.enabled ≡ false) ⊎ IsBroker config))
config_validate_iff_example = config_validate_iff config

e164_valid_iff_example :
    (Config.e164_valid (some (codes "+491234567")) ≡ true) ↔ IsE164 (codes "+491234567")
e164_valid_iff_example = e164_valid_iff (codes "+491234567")

e164_valid_lem_run :
    Rules.e164_valid (some (codes "+491234567")) ≡ Config.e164_valid (some (codes "+491234567"))
e164_valid_lem_run = e164_valid_lem (some (codes "+491234567"))

-- A chain of commands behind another one is let through.
cmgs_chained : at_command_allowed (some (codes "AT+CPMS?;+CMGS=5")) 64 ≡ true
unfolding at_command_allowed starts_with_ignore_case
cmgs_chained = refl

cmgs_refused : at_command_allowed (some (codes "at+cmgs=1")) 64 ≡ false
unfolding at_command_allowed starts_with_ignore_case
cmgs_refused = refl

creg_prefix : at_response_prefix (some (codes "AT+creg?")) 16 ≡ some (codes "+CREG:")
unfolding at_response_prefix starts_with_ignore_case command_name
creg_prefix = refl

length-at_response_prefix_run : length (codes "+CREG:") + 1 ≤ 16
length-at_response_prefix_run = length-at_response_prefix (some (codes "AT+creg?")) 16 creg_prefix
