-- ===== src/Usb/ModeSwitch.antt =====
-- components/usb_modem_transport/huawei_mode_switch.c
pub mod Message
use esp32_sms_gateway.Base.{
  ℕ, Bool, true, false, not, ◌&&◌, ◌||◌, Option, none, some, List, [], ◌∷◌, length, ltb, ◌==◌,
  if◌then◌else◌, Bytes,
}

-- huawei_mode_switch_pid_supported
unfoldable pub mode_switch_pid_supported : ℕ → ℕ → Bool
mode_switch_pid_supported pid extra_pid =
    pid == 0x1446 || pid == 0x14FE || pid == 0x1F01 || (not (extra_pid == 0) && pid == extra_pid)

-- huawei_modem_pid_supported
unfoldable pub modem_pid_supported : ℕ → ℕ → Bool
modem_pid_supported pid configured_pid = pid == configured_pid || pid == 0x1506 || pid == 0x1442

-- The command block wrapper that huawei_mode_switch_message copies.
abbrev pub message : Bytes
message =
    0x55 ∷ 0x53 ∷ 0x42 ∷ 0x43 ∷ 0x12 ∷ 0x34 ∷ 0x56 ∷ 0x78 ∷ 0x00 ∷ 0x00 ∷ 0x00 ∷ 0x00 ∷ 0x00 ∷ 0x00
    ∷ 0x00 ∷ 0x11 ∷ 0x06 ∷ 0x20 ∷ 0x00 ∷ 0x00 ∷ 0x01 ∷ 0x01 ∷ 0x00 ∷ 0x01 ∷ 0x00 ∷ 0x00 ∷ 0x00
    ∷ 0x00 ∷ 0x00 ∷ 0x00 ∷ 0x00 ∷ []

-- huawei_mode_switch_message into a buffer of `capacity` bytes; `none` if it does not fit.
unfoldable pub mode_switch_message : ℕ → Option Bytes
mode_switch_message capacity = if ltb capacity (length message) then none else some message
