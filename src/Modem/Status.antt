-- ===== src/Modem/Status.antt =====
-- components/modem_manager/modem_status.c: the status lines of the modem. A parser returns what it
-- writes through its out parameter; a line or a prefix that may be NULL is an option.
pub mod Csq
pub mod Creg
use esp32_sms_gateway.Base.{
  ℕ, suc, ◌+◌, ◌*◌, ◌-◌, Bool, true, false, not, ◌&&◌, ◌||◌, Option, none, some, List, [], ◌∷◌,
  ◌==◌, leb, if◌then◌else◌, ◌>>=◌, take, Bytes, codes, peek, next, str_eq, strip_prefix, skip_space,
  ℤ, pos, negsuc, in_range, strtol,
}

-- parse_int: with a 32-bit long the range of an int is that of strtol.
unfoldable pub parse_int : Bytes → Option (ℤ × Bytes)
parse_int cursor = strtol (skip_space cursor)

-- consume_char
unfoldable pub consume_char : Bytes → ℕ → Option Bytes
consume_char cursor expected =
    let p = skip_space cursor in if peek p == expected then some (next p) else none

-- has_prefix, and the cursor behind the prefix
abbrev pub behind : Option Bytes → Bytes → Option Bytes
behind line prefix = do l ← line; strip_prefix prefix l

-- The text has ended, but for blanks.
abbrev pub ended : Bytes → Bool
ended cursor = peek (skip_space cursor) == 0

-- modem_sim_state_t
pub data SimState : Type 0 where
  sim_unknown sim_ready sim_pin_required sim_puk_required sim_not_inserted sim_blocked sim_error :
      SimState

-- The answers of modem_status_parse_cpin.
unfoldable pub sim_state : Bytes → SimState
sim_state value =
    if str_eq value (codes "READY")
    then sim_ready
    else if str_eq value (codes "SIM PIN")
    then sim_pin_required
    else if str_eq value (codes "SIM PUK")
    then sim_puk_required
    else if str_eq value (codes "NOT INSERTED") || str_eq value (codes "SIM NOT INSERTED")
    then sim_not_inserted
    else if str_eq value (codes "SIM BLOCK") || str_eq value (codes "SIM BLOCKED")
    then sim_blocked
    else sim_error

-- modem_status_parse_cpin
unfoldable pub parse_cpin : Option Bytes → Option SimState
parse_cpin line = do value ← behind line (codes "+CPIN:"); some (sim_state (skip_space value))

-- modem_signal_t
pub record Signal : Type 0 where
  pub rssi : ℤ
  pub rssi_dbm : ℤ
  pub ber : ℤ

-- (z >= 0 && z <= hi) || z == 99
abbrev pub in_range_or_99 : ℕ → ℤ → Bool
in_range_or_99 hi z = in_range 0 hi z || in_range 99 99 z

-- -113 + 2 * rssi, or INT16_MIN for the unknown strength
abbrev pub dbm_of : ℤ → ℤ
dbm_of (pos n) =
    if n == 99
    then negsuc 32767
    else if leb 113 (2 * n)
    then pos (2 * n - 113)
    else negsuc (112 - 2 * n)
dbm_of (negsuc n) = negsuc (112 + 2 * suc n)

-- modem_status_parse_csq
unfoldable pub parse_csq : Option Bytes → Option Signal
parse_csq line = do
  c0 ← behind line (codes "+CSQ:")
  (rssi, c1) ← parse_int c0
  c2 ← consume_char c1 b','
  (ber, c3) ← parse_int c2
  if not (ended c3) || not (in_range_or_99 31 rssi) || not (in_range_or_99 7 ber)
      then none
      else some (record { rssi = rssi; rssi_dbm = dbm_of rssi; ber = ber })

-- modem_registration_t; the status is one of the numbers 0 to 5.
pub record Registration : Type 0 where
  pub status : ℤ
  pub access_technology : ℤ

-- The second number of the line, where it can be the status of the query form.
unfoldable pub second_field : ℤ → Bytes → Option (ℤ × Bytes) → ℤ × Bytes
second_field first second_start none = (first, second_start)
second_field first second_start (some (second, after_second)) =
    if in_range 0 2 first && in_range 0 5 second
    then (second, after_second)
    else (first, second_start)

-- The status and the cursor that modem_status_parse_registration chooses at the first comma: the
-- query form has the status in second place, the unsolicited form in first.
unfoldable pub choose_status : ℤ → Bytes → ℤ × Bytes
choose_status first second_start =
    if peek second_start == b'"'
    then (first, second_start)
    else second_field first second_start (parse_int second_start)

-- The text behind the last comma, as strrchr finds it.
unfoldable pub behind_last_comma : Bytes → Option Bytes
behind_last_comma [] = none
behind_last_comma (c ∷ s) = elim (behind_last_comma s) [
  | some rest ↦ some rest
  | none ↦ if c == b',' then some s else none
]

-- The access technology: the last field, if that is a number.
unfoldable pub technology : Bytes → ℤ
technology cursor = elim (behind_last_comma cursor) [
  | none ↦ negsuc 0
  | some rest ↦ elim (parse_int rest) [
    | none ↦ negsuc 0
    | some (act, end) ↦ if ended end then act else negsuc 0
  ]
]

abbrev pub first_field : ℤ → Bytes → ℤ × Bytes
first_field first cursor =
    if peek cursor == b',' then choose_status first (skip_space (next cursor)) else (first, cursor)

-- modem_status_parse_registration
unfoldable pub parse_registration : Option Bytes → Bytes → Option Registration
parse_registration line prefix = do
  c0 ← behind line prefix
  (first, c1) ← parse_int c0
  let chosen = first_field first (skip_space c1)
  if not (in_range 0 5 chosen.0)
      then none
      else some (record { status = chosen.0; access_technology = technology chosen.1 })

-- modem_registration_is_registered
abbrev pub is_registered : ℤ → Bool
is_registered status = in_range 1 1 status || in_range 5 5 status

-- modem_registration_is_roaming
abbrev pub is_roaming : ℤ → Bool
is_roaming status = in_range 5 5 status

-- modem_operator_t
pub record Operator : Type 0 where
  pub mode : ℤ
  pub format : ℤ
  pub name : Bytes
  pub access_technology : ℤ

abbrev pub operator_name_max : ℕ
operator_name_max = 64

-- The bytes up to a quote, and the cursor at it.
unfoldable pub until_quote : Bytes → Bytes × Bytes
until_quote [] = ([], [])
until_quote (c ∷ s) =
    let (read, left) = until_quote s in if c == b'"' then ([], c ∷ s) else (c ∷ read, left)

-- The last field of modem_status_parse_operator, and the end of the text.
unfoldable pub operator_technology : Bytes → Option ℤ
operator_technology cursor =
    if peek (skip_space cursor) == b','
    then (do
      (act, end) ← parse_int (next (skip_space cursor))
      if ended end then some act else none)
    else if ended cursor
    then some (negsuc 0)
    else none

-- modem_status_parse_operator
unfoldable pub parse_operator : Option Bytes → Option Operator
parse_operator line = do
  c0 ← behind line (codes "+COPS:")
  (mode, c1) ← parse_int c0
  if ended c1
      then some (record { mode = mode; format = negsuc 0; name = []; access_technology = negsuc 0 })
      else do
        c2 ← consume_char c1 b','
        (format, c3) ← parse_int c2
        c4 ← consume_char c3 b','
        c5 ← consume_char c4 b'"'
        let (name, c6) = until_quote c5
        if not (peek c6 == b'"') then none else do
          act ← operator_technology (next c6)
          some (record {
            mode = mode;
            format = format;
            name = take 63 name;
            access_technology = act;
          })

-- modem_sim_state_name
unfoldable pub sim_state_name : SimState → Bytes
sim_state_name sim_unknown = codes "unknown"
sim_state_name sim_ready = codes "ready"
sim_state_name sim_pin_required = codes "pin_required"
sim_state_name sim_puk_required = codes "puk_required"
sim_state_name sim_not_inserted = codes "not_inserted"
sim_state_name sim_blocked = codes "blocked"
sim_state_name sim_error = codes "error"

-- modem_registration_status_name
unfoldable pub registration_status_name : ℤ → Bytes
registration_status_name (negsuc n) = codes "unknown"
registration_status_name (pos n) =
    if n == 0
    then codes "not_registered"
    else if n == 1
    then codes "home"
    else if n == 2
    then codes "searching"
    else if n == 3
    then codes "denied"
    else if n == 4
    then codes "unknown_network"
    else if n == 5
    then codes "roaming"
    else codes "unknown"
