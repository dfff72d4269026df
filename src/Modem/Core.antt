-- ===== src/Modem/Core.antt =====
-- components/modem_core/modem_core.c: the state of the modem as the gateway shows it, driven by the events of the
-- manager and of the USB transport. What a handler calls in other components is a part of its result, in order.
-- Functions that only pass a call on, and log lines, are left out.
pub mod Traces
use esp32_sms_gateway.Base.{
  ℕ, Bool, true, false, not, Option, none, some, List, [], ◌∷◌, Bytes, codes,
}
use esp32_sms_gateway.Store.Slots.{Error, invalid_arg, no_mem, other}

-- modem_state_t
pub data ModemState : Type 0 where
  boot wait_usb enumerate find_at_interface at_probe at_ready sim_check network_register ready
        degraded recovery :
      ModemState

-- modem_manager_state_t
pub data ManagerState : Type 0 where
  manager_stopped manager_wait_transport manager_initializing manager_sim_wait
        manager_network_wait :
      ManagerState
  manager_ready manager_degraded manager_recovery : ManagerState

-- modem_usb_event_t
pub data UsbEvent : Type 0 where
  host_ready device_found probing usb_at_ready disconnected usb_error : UsbEvent

-- The calls of other components that change their state.
pub data Call : Type 0 where
  sms_modem_ready sms_modem_lost at_transport_lost manager_transport_ready manager_transport_lost :
      Call
  usb_power : Bool → Call

-- The variables of the component; an observer is what identifies its callback.
pub record Core : Type 0 where
  pub state : ModemState
  pub last_manager_state : ManagerState
  pub sms_observers : List (Option ℕ)

abbrev pub core_start : Core
core_start = record {
  state = boot;
  last_manager_state = manager_stopped;
  sms_observers = none ∷ none ∷ none ∷ [];
}

-- set_state
unfoldable pub set_state : ModemState → Core → Core
set_state s core = record core { state = s }

unfoldable pub is_manager_ready : ManagerState → Bool
is_manager_ready manager_ready = true
is_manager_ready s = false

-- The switch of manager_event.
unfoldable pub state_of_manager : ManagerState → Core → Core
unfolding set_state
state_of_manager manager_wait_transport core = set_state wait_usb core
state_of_manager manager_initializing core = set_state sim_check core
state_of_manager manager_sim_wait core = set_state sim_check core
state_of_manager manager_network_wait core = set_state network_register core
state_of_manager manager_ready core = set_state ready core
state_of_manager manager_recovery core = set_state recovery core
state_of_manager manager_degraded core = set_state degraded core
state_of_manager manager_stopped core = core

-- What manager_event tells the SMS service, by the state before and the new one.
unfoldable pub sms_notices : Bool → Bool → List Call
sms_notices false true = sms_modem_ready ∷ []
sms_notices true false = sms_modem_lost ∷ []
sms_notices false false = []
sms_notices true true = []

-- manager_event
unfoldable pub manager_event : Option ManagerState → Core → Core × List Call
unfolding state_of_manager sms_notices is_manager_ready
manager_event none core = (core, [])
manager_event (some s) core = (
  state_of_manager s (record core { last_manager_state = s }),
  sms_notices (is_manager_ready core.last_manager_state) (is_manager_ready s),
)

-- usb_transport_event
unfoldable pub usb_transport_event : UsbEvent → Core → Core × List Call
unfolding set_state
usb_transport_event host_ready core = (set_state wait_usb core, [])
usb_transport_event device_found core = (set_state find_at_interface (set_state enumerate core), [])
usb_transport_event probing core = (set_state at_probe core, [])
usb_transport_event usb_at_ready core = (set_state at_ready core, manager_transport_ready ∷ [])
usb_transport_event disconnected core =
    (set_state wait_usb core, at_transport_lost ∷ sms_modem_lost ∷ manager_transport_lost ∷ [])
usb_transport_event usb_error core =
    (set_state degraded core, at_transport_lost ∷ sms_modem_lost ∷ manager_transport_lost ∷ [])

-- The end of modem_core_init: the host is started, or left off in safe mode.
unfoldable pub start_usb : Bool → Option Error → Core → Core × Option Error
unfolding set_state
start_usb false started core = (set_state degraded core, none)
start_usb true none core = (core, none)
start_usb true (some e) core = (set_state degraded core, some e)

-- modem_core_init, with what the initialisation of the AT engine, the manager, the SMS service and the start of
-- the USB host give.
unfoldable pub core_init :
    Bool → Option Error → Option Error → Option Error → Option Error → Core → Core × Option Error
unfolding set_state start_usb
core_init start_usb_host (some e) manager sms started core = (set_state degraded core, some e)
core_init start_usb_host none (some e) sms started core = (set_state degraded core, some e)
core_init start_usb_host none none (some e) started core = (set_state degraded core, some e)
core_init start_usb_host none none none started core =
    start_usb start_usb_host started (set_state wait_usb core)

-- ESP_ERR_NOT_SUPPORTED
abbrev pub not_supported : Error
not_supported = other 0x106

-- manager_hard_reset: whether the supply can be switched, and what switching it off and on gives.
unfoldable pub hard_reset : Bool → Option Error → Option Error → List Call × Option Error
hard_reset false off on = ([], some not_supported)
hard_reset true (some e) on = (at_transport_lost ∷ usb_power false ∷ [], some e)
hard_reset true none on = (at_transport_lost ∷ usb_power false ∷ usb_power true ∷ [], on)

-- The loop of modem_core_add_sms_event_callback.
unfoldable pub add_observer : ℕ → List (Option ℕ) → Option (List (Option ℕ))
add_observer cb [] = none
add_observer cb (none ∷ observers) = some (some cb ∷ observers)
add_observer cb (some c ∷ observers) = more (add_observer cb observers)
  where
    more : Option (List (Option ℕ)) → Option (List (Option ℕ))
    more none = none
    more (some later) = some (some c ∷ later)

-- modem_core_add_sms_event_callback
unfoldable pub add_sms_event_callback : Option ℕ → Core → Core × Option Error
unfolding add_observer
add_sms_event_callback none core = (core, some invalid_arg)
add_sms_event_callback (some cb) core = added (add_observer cb core.sms_observers)
  where
    added : Option (List (Option ℕ)) → Core × Option Error
    added none = (core, some no_mem)
    added (some observers) = (record core { sms_observers = observers }, none)

-- The observers that sms_event calls, in order.
unfoldable pub observers_called : List (Option ℕ) → List ℕ
observers_called [] = []
observers_called (none ∷ observers) = observers_called observers
observers_called (some cb ∷ observers) = cb ∷ observers_called observers

-- modem_core_state_name
unfoldable pub core_state_name : ModemState → Bytes
core_state_name boot = codes "boot"
core_state_name wait_usb = codes "wait_usb"
core_state_name enumerate = codes "enumerate"
core_state_name find_at_interface = codes "find_at_interface"
core_state_name at_probe = codes "at_probe"
core_state_name at_ready = codes "at_ready"
core_state_name sim_check = codes "sim_check"
core_state_name network_register = codes "network_register"
core_state_name ready = codes "ready"
core_state_name degraded = codes "degraded"
core_state_name recovery = codes "recovery"
