-- ===== src/Usb/ModeSwitch/Message.antt =====
-- Which product ids are switched, and which are modems.
use esp32_sms_gateway.Base.{ℕ, ◌≡◌, ◌≢◌, arith, true, false}
use esp32_sms_gateway.Usb.ModeSwitch.{mode_switch_pid_supported, modem_pid_supported}

-- No product id is both one to switch and a modem that is switched already, unless the configuration
-- names it.
pub pid_roles :
    (pid extra configured : ℕ)
    → pid ≢ extra
    → pid ≢ configured
    → mode_switch_pid_supported pid extra ≡ true
    → modem_pid_supported pid configured ≡ false
unfolding mode_switch_pid_supported modem_pid_supported
pid_roles pid extra configured h k s = ground arith
