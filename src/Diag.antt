-- ===== src/Diag.antt =====
-- components/gateway_diag/gateway_diag.c: the count of consecutive crashes, which survives resets, and the safe
-- mode that it leads to. The reason of a reset comes from ESP-IDF; texts of crashes in NVS are not modelled.
pub mod Boots
use esp32_sms_gateway.Base.{
  ℕ, ◌+◌, ◌%◌, ◌^◌, Bool, true, false, not, ◌||◌, List, [], ◌∷◌, ◌==◌, leb, if◌then◌else◌, Bytes,
  codes,
}

-- esp_reset_reason_t, as the switches of this file tell its values apart; `unknown_reset` is any other.
pub data ResetReason : Type 0 where
  unknown_reset power_on external software panic int_wdt task_wdt wdt deep_sleep brownout :
      ResetReason
  usb jtag cpu_lockup pwr_glitch : ResetReason

-- gateway_safe_mode_t
pub data SafeMode : Type 0 where
  off no_modem no_modem_no_display : SafeMode

-- s_rtc_magic and s_rtc_crashes
pub record RtcMemory : Type 0 where
  pub rtc_magic : ℕ
  pub rtc_crashes : ℕ

abbrev pub diag_magic : ℕ
diag_magic = 0x53474449

abbrev pub safe_mode_crashes : ℕ
safe_mode_crashes = 3

abbrev pub safe_mode_deep_crashes : ℕ
safe_mode_deep_crashes = 6

-- reason_is_abnormal
unfoldable pub reason_is_abnormal : ResetReason → Bool
reason_is_abnormal panic = true
reason_is_abnormal int_wdt = true
reason_is_abnormal task_wdt = true
reason_is_abnormal wdt = true
reason_is_abnormal brownout = true
reason_is_abnormal usb = true
reason_is_abnormal cpu_lockup = true
reason_is_abnormal pwr_glitch = true
reason_is_abnormal unknown_reset = false
reason_is_abnormal power_on = false
reason_is_abnormal external = false
reason_is_abnormal software = false
reason_is_abnormal deep_sleep = false
reason_is_abnormal jtag = false

unfoldable pub is_power_on : ResetReason → Bool
is_power_on power_on = true
is_power_on r = false

-- How gateway_diag_init counts; the counter is a uint32_t.
unfoldable pub count_boot : ResetReason → RtcMemory → RtcMemory
unfolding reason_is_abnormal is_power_on
count_boot reason rtc =
    let crashes =
      if not (rtc.rtc_magic == diag_magic) || is_power_on reason then 0 else rtc.rtc_crashes in
    record {
      rtc_magic = diag_magic;
      rtc_crashes = if reason_is_abnormal reason then (crashes + 1) % 2 ^ 32 else 0;
    }

-- The safe mode that gateway_diag_init sets from the count before the boot.
unfoldable pub safe_mode_of : ℕ → SafeMode
safe_mode_of crashes =
    if leb safe_mode_deep_crashes crashes
    then no_modem_no_display
    else if leb safe_mode_crashes crashes
    then no_modem
    else off

-- stable_cb, after DIAG_STABLE_AFTER_US
unfoldable pub stable : RtcMemory → RtcMemory
stable rtc = record rtc { rtc_crashes = 0 }

-- gateway_diag_reset_reason
unfoldable pub reset_reason_text : ResetReason → Bytes
reset_reason_text power_on = codes "power-on"
reset_reason_text external = codes "external reset"
reset_reason_text software = codes "software restart"
reset_reason_text panic = codes "crash (panic)"
reset_reason_text int_wdt = codes "interrupt watchdog"
reset_reason_text task_wdt = codes "task watchdog"
reset_reason_text wdt = codes "watchdog"
reset_reason_text deep_sleep = codes "deep sleep wake"
reset_reason_text brownout = codes "brownout (supply voltage dropped)"
reset_reason_text usb = codes "reset by USB host (DTR/RTS)"
reset_reason_text jtag = codes "JTAG"
reset_reason_text cpu_lockup = codes "CPU lockup"
reset_reason_text pwr_glitch = codes "power glitch"
reset_reason_text unknown_reset = codes "unknown"
