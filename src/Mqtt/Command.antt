-- ===== src/Mqtt/Command.antt =====
-- components/mqtt_service/mqtt_command_policy.c
pub mod Retained
use esp32_sms_gateway.Base.{
  Bool, true, false, not, ◌&&◌, Option, none, some, if◌then◌else◌, Bytes, codes, str_eq,
}

-- mqtt_command_kind_t
pub data CommandKind : Type 0 where
  no_command sms_send native_notify modem_restart system_reboot ha_status : CommandKind

-- payload != NULL && strcmp(payload, text) == 0
abbrev pub payload_is : Option Bytes → Bytes → Bool
payload_is none text = false
payload_is (some payload) text = str_eq payload text

abbrev pub payload_given : Option Bytes → Bool
payload_given none = false
payload_given (some payload) = true

-- mqtt_command_allowed
unfoldable pub command_allowed : CommandKind → Bool → Option Bytes → Bool
command_allowed no_command retained payload = false
command_allowed ha_status retained payload = not retained && payload_is payload (codes "online")
command_allowed modem_restart retained payload =
    if retained then false else payload_is payload (codes "PRESS")
command_allowed system_reboot retained payload =
    if retained then false else payload_is payload (codes "PRESS")
command_allowed sms_send retained payload = if retained then false else payload_given payload
command_allowed native_notify retained payload = if retained then false else payload_given payload
