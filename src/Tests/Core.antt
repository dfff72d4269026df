-- ===== src/Tests/Core.antt =====
-- Events of a modem that comes, registers and is pulled out.
use esp32_sms_gateway.Base.{Bool, true, false, some, ◌≡◌, refl}
use esp32_sms_gateway.Modem.Core.{
  Core, manager_event, usb_transport_event, core_start, manager_ready, usb_at_ready, set_state,
  state_of_manager, sms_notices, is_manager_ready, ready,
}
use esp32_sms_gateway.Modem.Core.Traces.{
  last_notice, Reached, started, by_manager, by_usb, IsTrue, Reached-IsTrue,
}

abbrev plugged : Core
plugged = (usb_transport_event usb_at_ready core_start).0

abbrev registered : Core
registered = (manager_event (some manager_ready) plugged).0

abbrev registered_noticed : Bool
registered_noticed =
    last_notice (last_notice false (usb_transport_event usb_at_ready core_start).1)
      (manager_event (some manager_ready) plugged).1

registered_ready : registered.state ≡ ready
unfolding manager_event state_of_manager set_state
registered_ready = refl

registered_sms : registered_noticed ≡ true
unfolding usb_transport_event manager_event state_of_manager sms_notices is_manager_ready set_state
registered_sms = refl

reached : Reached registered registered_noticed
reached = by_manager (some manager_ready) (by_usb usb_at_ready started)

Reached-IsTrue_example : IsTrue registered registered_noticed
Reached-IsTrue_example = Reached-IsTrue reached
