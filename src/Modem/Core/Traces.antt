-- ===== src/Modem/Core/Traces.antt =====
-- The notices that the core gives the SMS service over any sequence of events.
use esp32_sms_gateway.Base.{
  ◌≡◌, ◌≢◌, ◌⊎◌, inl, inr, refl, Bool-cases, Bool, true, false, Option, none, some, List, [], ◌∷◌,
}
use esp32_sms_gateway.Modem.Core.{
  ready, ManagerState, manager_stopped, manager_wait_transport, manager_initializing,
  manager_sim_wait, manager_network_wait, manager_ready, manager_recovery, manager_degraded,
  UsbEvent, host_ready, device_found, probing, usb_at_ready, disconnected, usb_error, Call,
  sms_modem_ready, sms_modem_lost, at_transport_lost, manager_transport_ready,
  manager_transport_lost, usb_power, Core, core_start, set_state, is_manager_ready,
  state_of_manager, sms_notices, manager_event, usb_transport_event,
}

-- Whether the last notice to the SMS service is that the modem is ready, after calls and from what it was
-- before. The service's own view is not modelled: it also looks at the transport by itself.
abbrev pub last_notice : Bool → List Call → Bool
last_notice before [] = before
last_notice before (sms_modem_ready ∷ calls) = last_notice true calls
last_notice before (sms_modem_lost ∷ calls) = last_notice false calls
last_notice before (at_transport_lost ∷ calls) = last_notice before calls
last_notice before (manager_transport_ready ∷ calls) = last_notice before calls
last_notice before (manager_transport_lost ∷ calls) = last_notice before calls
last_notice before (usb_power on ∷ calls) = last_notice before calls

-- The cores that events lead to, and whether the last notice to the SMS service is that the modem is ready.
pub data Reached : Core → Bool → Type 0 where
  started : Reached core_start false
  by_manager :
      {core : Core} {before : Bool} (s : Option ManagerState)
      → Reached core before
      → Reached (manager_event s core).0 (last_notice before (manager_event s core).1)
  by_usb :
      {core : Core} {before : Bool} (e : UsbEvent)
      → Reached core before
      → Reached (usb_transport_event e core).0 (last_notice before (usb_transport_event e core).1)

-- The last notice to the SMS service is that the modem is ready only while the manager's last state is ready,
-- and the state that is shown is ready only while the manager's last state is ready or stopped.
abbrev pub IsTrue : Core → Bool → Type 0
IsTrue core before =
    ((before ≡ false) ⊎ (core.last_manager_state ≡ manager_ready))
    × ((core.state ≢ ready)
        ⊎ ((core.last_manager_state ≡ manager_ready) ⊎ (core.last_manager_state ≡ manager_stopped)))

-- With a state that is not ready the last notice is that the modem is lost, or there was none of a ready one.
last_notice_manager :
    (last s : ManagerState) (before : Bool)
    → (before ≡ false) ⊎ (last ≡ manager_ready)
    → is_manager_ready s ≡ false
    → last_notice before (sms_notices (is_manager_ready last) (is_manager_ready s)) ≡ false
unfolding sms_notices is_manager_ready
last_notice_manager last s before (inr was_ready) e = rw (was_ready, e) refl
last_notice_manager last s before (inl unnoticed) e = elim (Bool-cases (is_manager_ready last)) [
  | inl was_ready ↦ rw (was_ready, e) refl
  | inr was_not ↦ rw (was_not, e) unnoticed
]

manager_event-IsTrue :
    (s : Option ManagerState) (core : Core) (before : Bool)
    → IsTrue core before
    → IsTrue (manager_event s core).0 (last_notice before (manager_event s core).1)
unfolding manager_event state_of_manager set_state is_manager_ready
manager_event-IsTrue none core before h = h
manager_event-IsTrue (some manager_ready) core before (h, k) = (inr refl, inr (inl refl))
manager_event-IsTrue (some manager_stopped) core before (h, k) = (
  inl (last_notice_manager core.last_manager_state manager_stopped before h refl),
  inr (inr refl),
)
manager_event-IsTrue (some manager_wait_transport) core before (h, k) = (
  inl (last_notice_manager core.last_manager_state manager_wait_transport before h refl),
  inl (λ e. cc),
)
manager_event-IsTrue (some manager_initializing) core before (h, k) = (
  inl (last_notice_manager core.last_manager_state manager_initializing before h refl),
  inl (λ e. cc),
)
manager_event-IsTrue (some manager_sim_wait) core before (h, k) = (
  inl (last_notice_manager core.last_manager_state manager_sim_wait before h refl),
  inl (λ e. cc),
)
manager_event-IsTrue (some manager_network_wait) core before (h, k) = (
  inl (last_notice_manager core.last_manager_state manager_network_wait before h refl),
  inl (λ e. cc),
)
manager_event-IsTrue (some manager_degraded) core before (h, k) = (
  inl (last_notice_manager core.last_manager_state manager_degraded before h refl),
  inl (λ e. cc),
)
manager_event-IsTrue (some manager_recovery) core before (h, k) = (
  inl (last_notice_manager core.last_manager_state manager_recovery before h refl),
  inl (λ e. cc),
)

usb_transport_event-IsTrue :
    (e : UsbEvent) (core : Core) (before : Bool)
    → IsTrue core before
    → IsTrue (usb_transport_event e core).0 (last_notice before (usb_transport_event e core).1)
unfolding usb_transport_event set_state
usb_transport_event-IsTrue host_ready core before (h, k) = (h, inl (λ e. cc))
usb_transport_event-IsTrue device_found core before (h, k) = (h, inl (λ e. cc))
usb_transport_event-IsTrue probing core before (h, k) = (h, inl (λ e. cc))
usb_transport_event-IsTrue usb_at_ready core before (h, k) = (h, inl (λ e. cc))
usb_transport_event-IsTrue disconnected core before (h, k) = (inl refl, inl (λ e. cc))
usb_transport_event-IsTrue usb_error core before (h, k) = (inl refl, inl (λ e. cc))

-- Whatever events come from the manager and from the USB transport, in any order: the last notice that the core
-- has given the SMS service is that the modem is ready only while the manager's last state is ready, and the
-- core shows ready only while the manager's last state is ready or stopped.
pub Reached-IsTrue : {core : Core} {before : Bool} → Reached core before → IsTrue core before
Reached-IsTrue started = (inl refl, inl (λ e. cc))
Reached-IsTrue (by_manager {core} {before} s r) =
    manager_event-IsTrue s core before (Reached-IsTrue r)
Reached-IsTrue (by_usb {core} {before} e r) =
    usb_transport_event-IsTrue e core before (Reached-IsTrue r)
