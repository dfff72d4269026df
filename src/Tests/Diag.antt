-- ===== src/Tests/Diag.antt =====
-- A device that crashes three times after a software restart.
use esp32_sms_gateway.Base.{◌≡◌, false, ◌<◌, ◌≤◌, ◌↔◌, refl, [], ◌∷◌, ◌++◌, List, arith}
use esp32_sms_gateway.Diag.{
  ResetReason, RtcMemory, power_on, software, panic, task_wdt, brownout, reason_is_abnormal,
  safe_mode_of, off, no_modem_no_display, no_modem,
}
use esp32_sms_gateway.Diag.Boots.{boots, boots-crashes}

abbrev fresh : RtcMemory
fresh = record { rtc_magic = 12345; rtc_crashes = 77 }

abbrev crashes : List ResetReason
crashes = panic ∷ task_wdt ∷ brownout ∷ []

software_normal : reason_is_abnormal software ≡ false
unfolding reason_is_abnormal
software_normal = refl

three_no_modem : safe_mode_of 3 ≡ no_modem
unfolding safe_mode_of
three_no_modem = refl

boots-crashes_example :
    ((boots ((power_on ∷ panic ∷ []) ++ software ∷ crashes) fresh).rtc_crashes ≡ 3)
    × ((safe_mode_of (boots ((power_on ∷ panic ∷ []) ++ software ∷ crashes) fresh).rtc_crashes
          ≡ off)
        ↔ (3 < 3))
    × ((safe_mode_of (boots ((power_on ∷ panic ∷ []) ++ software ∷ crashes) fresh).rtc_crashes
          ≡ no_modem_no_display)
        ↔ (6 ≤ 3))
unfolding reason_is_abnormal
boots-crashes_example =
    boots-crashes (power_on ∷ panic ∷ []) crashes software fresh software_normal refl (omega arith)
