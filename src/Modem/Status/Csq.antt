-- ===== src/Modem/Status/Csq.antt =====
-- The answer to AT+CSQ.
use esp32_sms_gateway.Base.{
  ℕ, ◌≤◌, ◌≡◌, refl, true, false, ◌&&◌, ◌||◌, leb, ◌==◌, ◌*◌, ◌-◌, negsuc, Bool-cases, inl, inr,
  none, some, [], ◌∷◌, ◌++◌, append-nil, if◌then◌else◌, Bytes, arith, codes, peek, is_digit,
  skip_space, strip_prefix, pos, int_max, decimal, decimal_head, strtol-decimal,
}
use esp32_sms_gateway.Modem.Status.{parse_int, consume_char, in_range_or_99, dbm_of, parse_csq}

pub skip_space-decimal : (n : ℕ) (rest : Bytes) → skip_space (decimal n ++ rest) ≡ decimal n ++ rest
skip_space-decimal n rest = starts (decimal n ++ rest) (decimal_head n rest)
  where
    starts : (s : Bytes) → is_digit (peek s) ≡ true → skip_space s ≡ s
    starts [] h = unfold skip_space in refl
    starts (c ∷ s) h = unfold skip_space in ground arith

-- A printed number is read as it is, and the cursor stands behind it.
pub parse_int-decimal :
    (n : ℕ) (rest : Bytes)
    → n ≤ int_max
    → is_digit (peek rest) ≡ false
    → parse_int (decimal n ++ rest) ≡ some (pos n, rest)
unfolding parse_int
parse_int-decimal n rest fits h = rw skip_space-decimal (strtol-decimal n rest fits h)

-- The same behind a blank.
pub parse_int-blank_decimal :
    (n : ℕ) (rest : Bytes)
    → n ≤ int_max
    → is_digit (peek rest) ≡ false
    → parse_int (b' ' ∷ (decimal n ++ rest)) ≡ some (pos n, rest)
unfolding parse_int
parse_int-blank_decimal n rest fits h =
    rw (blank (decimal n ++ rest)) (unfold parse_int in parse_int-decimal n rest fits h)
  where
    blank : (s : Bytes) → skip_space (b' ' ∷ s) ≡ skip_space s
    blank s = unfold skip_space in refl

in_range_or_99-pos : (hi n : ℕ) → in_range_or_99 hi (pos n) ≡ (leb n hi || n == 99)
in_range_or_99-pos hi n = ground arith

dbm_of-pos :
    (n : ℕ)
    → (leb n 31 || n == 99) ≡ true
    → dbm_of (pos n) ≡ (if n == 99 then negsuc 32767 else negsuc (112 - 2 * n))
dbm_of-pos n h = ground arith

-- The answer `+CSQ: <rssi>,<ber>` with any two numbers of an int is read as these exactly if the strength
-- is at most 31 or 99 and the error rate at most 7 or 99. The strength in dBm is -113 + 2 * rssi, and
-- -32768 (INT16_MIN) for 99.
pub parse_csq-decimal :
    (rssi ber : ℕ)
    → rssi ≤ int_max
    → ber ≤ int_max
    → parse_csq (some (codes "+CSQ: " ++ (decimal rssi ++ (b',' ∷ decimal ber)))) ≡ (
        if (leb rssi 31 || rssi == 99) && (leb ber 7 || ber == 99)
        then some (record {
          rssi = pos rssi;
          rssi_dbm = if rssi == 99 then negsuc 32767 else negsuc (112 - 2 * rssi);
          ber = pos ber;
        })
        else none)
unfolding parse_csq
parse_csq-decimal rssi ber fits fits' =
    let first : parse_int (b' ' ∷ (decimal rssi ++ (b',' ∷ decimal ber)))
        ≡ some (pos rssi, b',' ∷ decimal ber) =
      parse_int-blank_decimal rssi (b',' ∷ decimal ber) fits refl in
    let second : parse_int (decimal ber) ≡ some (pos ber, []) =
      rw append-nil at (parse_int-decimal ber [] fits' refl) in
    let comma : consume_char (b',' ∷ decimal ber) b',' ≡ some (decimal ber) =
      unfold consume_char skip_space in refl in
    let low = in_range_or_99-pos 31 rssi in
    let high = in_range_or_99-pos 7 ber in
    unfold strip_prefix in
    rw (first, comma, second)
      (unfold skip_space in
        elim (Bool-cases ((leb rssi 31 || rssi == 99) && (leb ber 7 || ber == 99))) [
          | inl fine ↦ let dbm = dbm_of-pos rssi (ground arith) in ground (arith, low, high, dbm)
          | inr bad ↦ ground (arith, low, high)
        ])
