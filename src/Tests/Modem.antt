-- ===== src/Tests/Modem.antt =====
-- The modem's status lines and the recovery policy (tests/test_modem_status.c,
-- tests/test_modem_recovery_policy.c).
use esp32_sms_gateway.Base.{
  ℕ, ◌-◌, ◌+◌, ◌≡◌, ◌≤◌, refl, ◌&&◌, ◌||◌, ◌*◌, ◌==◌, leb, none, some, [], ◌∷◌, ◌++◌, codes, arith,
  replicate, if◌then◌else◌, ℤ, pos, negsuc, decimal, strtol, skip_space, strip_prefix, str_eq,
  skip_isspace, read_digits,
}
use esp32_sms_gateway.Modem.Recovery.{reinitialize, functional_reset, hard_reset, rounds_of}
use esp32_sms_gateway.Modem.Recovery.Rounds.{rounds_of_cycle}
use esp32_sms_gateway.Modem.Status.{
  parse_cpin, sim_state, sim_pin_required, parse_csq, parse_int, consume_char, parse_registration,
  choose_status, second_field, technology, behind_last_comma, parse_operator, until_quote,
  operator_technology,
}
use esp32_sms_gateway.Modem.Status.Csq.{parse_csq-decimal}
use esp32_sms_gateway.Modem.Status.Creg.{parse_registration_bounds, parse_registration-decimal}

parse_cpin_pin : parse_cpin (some (codes "+CPIN: SIM PIN")) ≡ some sim_pin_required
unfolding parse_cpin sim_state strip_prefix skip_space str_eq
parse_cpin_pin = refl

parse_csq_20 :
    parse_csq (some (codes "+CSQ: 20,99"))
    ≡ some (record { rssi = pos 20; rssi_dbm = negsuc 72; ber = pos 99 })
unfolding parse_csq parse_int consume_char skip_isspace read_digits strtol strip_prefix skip_space
parse_csq_20 = refl

-- The technology of a notification is its last field.
creg_line :
    parse_registration (some (codes "+CREG: 2,1,\"00A1\",\"0001\",7")) (codes "+CREG:")
    ≡ some (record { status = pos 1; access_technology = pos 7 })
unfolding parse_registration choose_status second_field technology behind_last_comma parse_int
    skip_isspace read_digits strtol strip_prefix skip_space
creg_line = refl

parse_operator_name :
    parse_operator (some (codes "+COPS: 0,0,\"Vodafone\",7"))
    ≡ some (record {
      mode = pos 0;
      format = pos 0;
      name = codes "Vodafone";
      access_technology = pos 7;
    })
unfolding parse_operator until_quote operator_technology parse_int consume_char skip_isspace
    read_digits strtol strip_prefix skip_space
parse_operator_name = refl

parse_csq-decimal_example :
    parse_csq (some (codes "+CSQ: " ++ (decimal 20 ++ (b',' ∷ decimal 99)))) ≡ (
      if (leb 20 31 || 20 == 99) && (leb 99 7 || 99 == 99)
      then some (record {
        rssi = pos 20;
        rssi_dbm = if 20 == 99 then negsuc 32767 else negsuc (112 - 2 * 20);
        ber = pos 99;
      })
      else none)
parse_csq-decimal_example = parse_csq-decimal 20 99 (omega arith) (omega arith)

parse_registration_bounds_example : (n : ℕ) × (◌≡◌ {A = ℤ} (pos 1) (pos n)) × (n ≤ 5)
parse_registration_bounds_example =
    parse_registration_bounds (some (codes "+CREG: 2,1,\"00A1\",\"0001\",7")) (codes "+CREG:")
      creg_line

parse_registration-decimal_example :
    (parse_registration
        (some (codes "+CREG:" ++ (b' ' ∷ (decimal 0 ++ (b',' ∷ decimal 5)))))
        (codes "+CREG:")
      ≡ some (record { status = pos 5; access_technology = negsuc 0 }))
    × (parse_registration (some (codes "+CREG:" ++ (b' ' ∷ decimal 5))) (codes "+CREG:")
        ≡ some (record { status = pos 5; access_technology = negsuc 0 }))
parse_registration-decimal_example =
    parse_registration-decimal (codes "+CREG:") 0 5 (omega arith) (omega arith)

rounds_of_cycle_example :
    rounds_of 3 3 2 (2 + 1) 0
    ≡ (0, reinitialize ∷ (replicate (2 - 1) functional_reset ++ hard_reset ∷ []))
rounds_of_cycle_example =
    rounds_of_cycle 3 3 2 (omega arith) (omega arith) (omega arith) (omega arith)
