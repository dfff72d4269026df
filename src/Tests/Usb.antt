-- ===== src/Tests/Usb.antt =====
-- A descriptor with one serial interface (tests/test_usb_descriptor.c) and the modem's product ids.
use mathlib.Core.List.{Perm}
use esp32_sms_gateway.Base.{◌≡◌, refl, true, false, some, [], ◌∷◌, Bytes, arith}
use esp32_sms_gateway.Usb.Descriptor.{
  Candidate, no_candidate, Scan, walk, visit, add_candidate, find_serial_candidates,
  sort_candidates,
}
use esp32_sms_gateway.Usb.Descriptor.Candidates.{walk_fuel}
use esp32_sms_gateway.Usb.Descriptor.Sort.{IsFalling, sort_candidates_lem}
use esp32_sms_gateway.Usb.ModeSwitch.{mode_switch_pid_supported, modem_pid_supported}
use esp32_sms_gateway.Usb.ModeSwitch.Message.{pid_roles}

-- An interface with protocol 1, a bulk endpoint each way and an interrupt endpoint.
abbrev descriptor : Bytes
descriptor =
    9 ∷ 4 ∷ 2 ∷ 0 ∷ 3 ∷ 0xFF ∷ 2 ∷ 1 ∷ 0 ∷ 7 ∷ 5 ∷ 0x82 ∷ 2 ∷ 0 ∷ 2 ∷ 0 ∷ 7 ∷ 5 ∷ 0x02 ∷ 2 ∷ 0 ∷ 2
    ∷ 0 ∷ 7 ∷ 5 ∷ 0x83 ∷ 3 ∷ 16 ∷ 0 ∷ 10 ∷ []

abbrev at_interface : Candidate
at_interface = record {
  interface_number = 2;
  interface_class = 0xFF;
  interface_subclass = 2;
  interface_protocol = 1;
  bulk_in_ep = 0x82;
  bulk_out_ep = 0x02;
  interrupt_in_ep = 0x83;
  score = 120;
}

find_at_interface : find_serial_candidates (some descriptor) 4 ≡ at_interface ∷ []
unfolding find_serial_candidates visit add_candidate
find_at_interface = refl

abbrev start : Scan
start = record { candidates = []; current = no_candidate; collecting = false }

walk_fuel_example : walk 30 4 start descriptor ≡ walk 99 4 start descriptor
walk_fuel_example = walk_fuel 30 99 4 start descriptor (omega arith) (omega arith)

sort_candidates_lem_run :
    Perm (sort_candidates (no_candidate ∷ at_interface ∷ [])) (no_candidate ∷ at_interface ∷ [])
    × IsFalling (sort_candidates (no_candidate ∷ at_interface ∷ []))
sort_candidates_lem_run = sort_candidates_lem (no_candidate ∷ at_interface ∷ [])

switches_1f01 : mode_switch_pid_supported 0x1F01 0 ≡ true
unfolding mode_switch_pid_supported
switches_1f01 = refl

pid_roles_example : modem_pid_supported 0x1F01 0x1506 ≡ false
pid_roles_example = pid_roles 0x1F01 0 0x1506 (omega arith) (omega arith) switches_1f01
