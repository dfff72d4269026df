-- ===== src/Mqtt/Command/Retained.antt =====
-- What the broker has to send for a command to be taken.
use esp32_sms_gateway.Base.{
  ◌≡◌, ◌↔◌, Bool, true, false, Option, none, some, Bytes, codes, arith, str_eq_iff,
}
use esp32_sms_gateway.Mqtt.Command.{
  CommandKind, no_command, sms_send, native_notify, modem_restart, system_reboot, ha_status,
  command_allowed,
}

-- What a command of this kind must carry.
abbrev pub Carries : CommandKind → Option Bytes → Type 0
Carries kind none = ⊥
Carries no_command (some payload) = ⊥
Carries sms_send (some payload) = Unit
Carries native_notify (some payload) = Unit
Carries modem_restart (some payload) = payload ≡ codes "PRESS"
Carries system_reboot (some payload) = payload ≡ codes "PRESS"
Carries ha_status (some payload) = payload ≡ codes "online"

-- A command is taken exactly if it is of a known kind, was not retained, and has the payload of its
-- kind: PRESS for a button, "online" for the status of Home Assistant, any for a message.
pub command_allowed_lem :
    (kind : CommandKind) (retained : Bool) (payload : Option Bytes)
    → (command_allowed kind retained payload ≡ true) ↔ ((retained ≡ false) × Carries kind payload)
unfolding command_allowed
command_allowed_lem no_command retained none = ground arith
command_allowed_lem no_command retained (some text) = ground arith
command_allowed_lem ha_status retained (some text) =
    ground (arith, str_eq_iff text (codes "online"))
command_allowed_lem sms_send retained (some text) = ground arith
command_allowed_lem native_notify retained (some text) = ground arith
command_allowed_lem kind retained none = ground arith
command_allowed_lem kind retained (some text) = ground (arith, str_eq_iff text (codes "PRESS"))
