-- ===== src/Diag/Boots.antt =====
-- The count of crashes and the safe mode over the boots of a device.
use esp32_sms_gateway.Base.{
  ℕ, ◌+◌, ◌^◌, ◌≤◌, ◌<◌, ◌≡◌, refl, ap, ◌∙◌, true, false, List, [], ◌∷◌, ◌++◌, ◌↔◌, length, all,
  ◌==◌, arith,
}
use esp32_sms_gateway.Diag.{
  ResetReason, unknown_reset, power_on, external, software, panic, int_wdt, task_wdt, wdt,
  deep_sleep, brownout, usb, jtag, cpu_lockup, pwr_glitch, off, no_modem_no_display, RtcMemory,
  diag_magic, reason_is_abnormal, is_power_on, count_boot, safe_mode_of,
}

-- The boots of a device, none of which has run long enough to be stable.
abbrev pub boots : List ResetReason → RtcMemory → RtcMemory
boots [] rtc = rtc
boots (reason ∷ reasons) rtc = boots reasons (count_boot reason rtc)

is_power_on-abnormal :
    (reason : ResetReason) → reason_is_abnormal reason ≡ true → is_power_on reason ≡ false
unfolding reason_is_abnormal is_power_on
is_power_on-abnormal unknown_reset h = refl
is_power_on-abnormal power_on h = cc
is_power_on-abnormal external h = refl
is_power_on-abnormal software h = refl
is_power_on-abnormal panic h = refl
is_power_on-abnormal int_wdt h = refl
is_power_on-abnormal task_wdt h = refl
is_power_on-abnormal wdt h = refl
is_power_on-abnormal deep_sleep h = refl
is_power_on-abnormal brownout h = refl
is_power_on-abnormal usb h = refl
is_power_on-abnormal jtag h = refl
is_power_on-abnormal cpu_lockup h = refl
is_power_on-abnormal pwr_glitch h = refl

count_boot-magic :
    (reason : ResetReason) (rtc : RtcMemory) → (count_boot reason rtc).rtc_magic ≡ diag_magic
unfolding count_boot
count_boot-magic reason rtc = refl

count_boot-normal :
    (reason : ResetReason) (rtc : RtcMemory)
    → reason_is_abnormal reason ≡ false
    → (count_boot reason rtc).rtc_crashes ≡ 0
unfolding count_boot
count_boot-normal reason rtc h = rw h refl

count_boot-abnormal :
    (reason : ResetReason) (rtc : RtcMemory)
    → rtc.rtc_magic ≡ diag_magic
    → reason_is_abnormal reason ≡ true
    → rtc.rtc_crashes + 1 < 2 ^ 32
    → (count_boot reason rtc).rtc_crashes ≡ rtc.rtc_crashes + 1
unfolding count_boot
count_boot-abnormal reason rtc magic abnormal small =
    let same : (rtc.rtc_magic == diag_magic) ≡ true = ground arith in
    let powered = is_power_on-abnormal reason abnormal in rw (abnormal, same, powered) (omega arith)

safe_mode_of-off : (n : ℕ) → (safe_mode_of n ≡ off) ↔ (n < 3)
unfolding safe_mode_of
safe_mode_of-off n = ground arith

safe_mode_of-no_display : (n : ℕ) → (safe_mode_of n ≡ no_modem_no_display) ↔ (6 ≤ n)
unfolding safe_mode_of
safe_mode_of-no_display n = ground arith

-- Abnormal boots are counted one by one.
boots-abnormal :
    (reasons : List ResetReason) (rtc : RtcMemory)
    → rtc.rtc_magic ≡ diag_magic
    → all reason_is_abnormal reasons ≡ true
    → rtc.rtc_crashes + length reasons < 2 ^ 32
    → (boots reasons rtc).rtc_crashes ≡ rtc.rtc_crashes + length reasons
boots-abnormal [] rtc magic abnormal small = omega arith
boots-abnormal (reason ∷ reasons) rtc magic abnormal small =
    let here : reason_is_abnormal reason ≡ true = ground arith in
    let counted : (count_boot reason rtc).rtc_crashes ≡ rtc.rtc_crashes + 1 =
      count_boot-abnormal reason rtc magic here (omega arith) in
    boots-abnormal reasons (count_boot reason rtc) (count_boot-magic reason rtc) (ground arith)
      (omega (arith, counted, small))
    ∙ omega (arith, counted)

boots-append :
    (before after : List ResetReason) (rtc : RtcMemory)
    → boots (before ++ after) rtc ≡ boots after (boots before rtc)
boots-append [] after rtc = refl
boots-append (reason ∷ before) after rtc = boots-append before after (count_boot reason rtc)

-- Whatever a device has been through before, the count is that of the abnormal resets since the last boot that
-- was none, as long as none of them has run stable and they are fewer than 2 ^ 32: with less than three of them
-- nothing is left out, with six of them or more neither modem nor display is started.
pub boots-crashes :
    (before crashes : List ResetReason) (normal : ResetReason) (rtc : RtcMemory)
    → reason_is_abnormal normal ≡ false
    → all reason_is_abnormal crashes ≡ true
    → length crashes < 2 ^ 32
    → ((boots (before ++ normal ∷ crashes) rtc).rtc_crashes ≡ length crashes)
      × ((safe_mode_of (boots (before ++ normal ∷ crashes) rtc).rtc_crashes ≡ off)
          ↔ (length crashes < 3))
      × ((safe_mode_of (boots (before ++ normal ∷ crashes) rtc).rtc_crashes ≡ no_modem_no_display)
          ↔ (6 ≤ length crashes))
boots-crashes before crashes normal rtc n abnormal small =
    let after = count_boot normal (boots before rtc) in
    let zero_ : after.rtc_crashes ≡ 0 = count_boot-normal normal (boots before rtc) n in
    let count : (boots (before ++ normal ∷ crashes) rtc).rtc_crashes ≡ length crashes =
      ap (λ t. t.rtc_crashes) (boots-append before (normal ∷ crashes) rtc)
      ∙ boots-abnormal crashes after (count_boot-magic normal (boots before rtc)) abnormal
          (omega (arith, zero_, small))
      ∙ omega (arith, zero_) in
    (
      count,
      rw count (safe_mode_of-off (length crashes)),
      rw count (safe_mode_of-no_display (length crashes)),
    )
