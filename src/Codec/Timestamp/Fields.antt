-- ===== src/Codec/Timestamp/Fields.antt =====
-- What a time stamp says, and what it must.
use esp32_sms_gateway.Base.{
  ℕ, suc, [], ap, ◌∙◌, ◌+◌, ◌*◌, ◌/◌, ◌%◌, ◌≤◌, ◌<◌, ◌≡◌, refl, Bool, true, false, not, ◌||◌, some,
  ◌∷◌, length, ltb, leb, within, ◌==◌, if◌then◌else◌, Bytes, arith,
}
use esp32_sms_gateway.Codec.Timestamp.{
  semi_octet_value, two_digits, timestamp_text, zone_quarters, timestamp_from, timestamp_decode,
}

-- The semi-octet of a number of two digits: the tens are low.
abbrev pub semi : ℕ → ℕ
semi n = n / 10 + n % 10 * 16

semi_octet_value-semi : (n : ℕ) → n < 100 → semi_octet_value (semi n) ≡ some n
unfolding semi_octet_value
semi_octet_value-semi n h =
    let low : (n / 10 + n % 10 * 16) % 16 ≡ n / 10 = omega arith in
    let high : (n / 10 + n % 10 * 16) / 16 % 16 ≡ n % 10 = omega arith in
    let tens : ltb 9 (n / 10) ≡ false = ground arith in
    let ones : ltb 9 (n % 10) ≡ false = ground arith in
    let whole : n / 10 * 10 + n % 10 ≡ n = omega arith in rw (low, high, tens, ones, whole) refl

-- The zone octet of a number of quarters of an hour and a sign.
abbrev pub zone : ℕ → Bool → ℕ
zone quarters negative = quarters / 10 + (if negative then 8 else 0) + quarters % 10 * 16

zone-quarters :
    (quarters : ℕ) (negative : Bool)
    → quarters < 80
    → (zone_quarters (zone quarters negative) ≡ quarters)
      × ((zone quarters negative / 8 % 2 == 1) ≡ negative)
unfolding zone_quarters
zone-quarters quarters true h =
    let set : (quarters / 10 + 8 + quarters % 10 * 16) / 8 % 2 ≡ 1 = omega arith in
    (omega arith, rw set refl)
zone-quarters quarters false h =
    let clear : (quarters / 10 + 0 + quarters % 10 * 16) / 8 % 2 ≡ 0 = omega arith in
    (omega arith, rw clear refl)

length-timestamp_text :
    (yy month day hour minute second : ℕ) (negative : Bool) (tz_minutes : ℕ)
    → length (timestamp_text yy month day hour minute second negative tz_minutes) ≡ 25
unfolding timestamp_text
length-timestamp_text yy month day hour minute second negative tz_minutes = refl

-- The seven octets of a time are written as the text of its fields.
timestamp_decode-timestamp_text :
    (yy month day hour minute second quarters : ℕ) (negative : Bool) (rest : Bytes)
    (out_capacity : ℕ)
    → yy < 100
    → (1 ≤ month) × (month ≤ 12)
    → (1 ≤ day) × (day ≤ 31)
    → hour < 24
    → minute < 60
    → second < 60
    → quarters < 80
    → 25 < out_capacity
    → timestamp_decode
        (semi yy
          ∷ semi month
          ∷ semi day
          ∷ semi hour
          ∷ semi minute
          ∷ semi second
          ∷ zone quarters negative
          ∷ rest)
        out_capacity
      ≡ some (timestamp_text yy month day hour minute second negative (quarters * 15))
unfolding timestamp_decode timestamp_from
timestamp_decode-timestamp_text yy month day hour minute second quarters negative rest out_capacity
      y m d h mi s q room =
    let (same, sign) = zone-quarters quarters negative q in
    let open' : (ltb (suc (suc (suc (suc (suc (suc (suc (length rest)))))))) 7
          || ltb out_capacity 24)
        ≡ false =
      ground arith in
    let good : (not (within 1 12 month)
          || not (within 1 31 day)
          || ltb 23 hour
          || ltb 59 minute
          || ltb 59 second
          || ltb 79 quarters)
        ≡ false =
      valid_time month day hour minute second quarters m d h mi s q in
    let fits : leb out_capacity 25 ≡ false = ground arith in
    rw
      (
        open',
        semi_octet_value-semi yy y,
        semi_octet_value-semi month (omega arith),
        semi_octet_value-semi day (omega arith),
        semi_octet_value-semi hour (omega arith),
        semi_octet_value-semi minute (omega arith),
        semi_octet_value-semi second (omega arith),
        same,
        sign,
        good,
        length-timestamp_text,
        fits,
      )
      refl
  where
    valid_time :
        (month day hour minute second quarters : ℕ)
        → (1 ≤ month) × (month ≤ 12)
        → (1 ≤ day) × (day ≤ 31)
        → hour < 24
        → minute < 60
        → second < 60
        → quarters < 80
        → (not (within 1 12 month)
            || not (within 1 31 day)
            || ltb 23 hour
            || ltb 59 minute
            || ltb 59 second
            || ltb 79 quarters)
          ≡ false
    valid_time month day hour minute second quarters m d h mi s q = ground arith

-- The ISO 8601 text of a time in a year of four digits, with its zone in quarters of an hour.
abbrev pub iso_text : ℕ → ℕ → ℕ → ℕ → ℕ → ℕ → ℕ → Bool → Bytes
iso_text year month day hour minute second quarters negative =
    (b'0' + year / 1000)
    ∷ (b'0' + year / 100 % 10)
    ∷ (b'0' + year / 10 % 10)
    ∷ (b'0' + year % 10)
    ∷ b'-'
    ∷ (b'0' + month / 10)
    ∷ (b'0' + month % 10)
    ∷ b'-'
    ∷ (b'0' + day / 10)
    ∷ (b'0' + day % 10)
    ∷ b'T'
    ∷ (b'0' + hour / 10)
    ∷ (b'0' + hour % 10)
    ∷ b':'
    ∷ (b'0' + minute / 10)
    ∷ (b'0' + minute % 10)
    ∷ b':'
    ∷ (b'0' + second / 10)
    ∷ (b'0' + second % 10)
    ∷ (if negative then b'-' else b'+')
    ∷ (b'0' + quarters / 4 / 10)
    ∷ (b'0' + quarters / 4 % 10)
    ∷ b':'
    ∷ (b'0' + quarters % 4 * 15 / 10)
    ∷ (b'0' + quarters % 4 * 15 % 10)
    ∷ []

century :
    (year : ℕ) → 1970 ≤ year → year ≤ 2069 → (if leb 70 (year % 100) then 19 else 20) ≡ year / 100
century year low high = ground arith

timestamp_text-iso_text :
    (year month day hour minute second quarters : ℕ) (negative : Bool)
    → 1970 ≤ year
    → year ≤ 2069
    → timestamp_text (year % 100) month day hour minute second negative (quarters * 15)
      ≡ iso_text year month day hour minute second quarters negative
unfolding timestamp_text two_digits
timestamp_text-iso_text year month day hour minute second quarters negative low high =
    let thousands : year / 100 / 10 ≡ year / 1000 = omega arith in
    let tens : year % 100 / 10 ≡ year / 10 % 10 = omega arith in
    let ones : year % 100 % 10 ≡ year % 10 = omega arith in
    let hours : quarters * 15 / 60 ≡ quarters / 4 = omega arith in
    let minutes : quarters * 15 % 60 ≡ quarters % 4 * 15 = omega arith in
    rw (century year low high, thousands, tens, ones, hours, minutes) refl

-- For each time of the years 1970 to 2069, written as two semi-octets a field with the last two digits of the
-- year, timestamp_decode writes its ISO 8601 text: for each month, day up to 31, time of a day and zone of
-- less than 20 hours in quarters, whatever octets follow, given room for the 25 characters and the NUL.
pub timestamp_decode-semi :
    (year month day hour minute second quarters : ℕ) (negative : Bool) (rest : Bytes)
    (out_capacity : ℕ)
    → (1970 ≤ year) × (year ≤ 2069)
    → (1 ≤ month) × (month ≤ 12)
    → (1 ≤ day) × (day ≤ 31)
    → hour < 24
    → minute < 60
    → second < 60
    → quarters < 80
    → 25 < out_capacity
    → timestamp_decode
        (semi (year % 100)
          ∷ semi month
          ∷ semi day
          ∷ semi hour
          ∷ semi minute
          ∷ semi second
          ∷ zone quarters negative
          ∷ rest)
        out_capacity
      ≡ some (iso_text year month day hour minute second quarters negative)
timestamp_decode-semi year month day hour minute second quarters negative rest out_capacity
      (low, high) m d h mi s q room =
    timestamp_decode-timestamp_text (year % 100) month day hour minute second quarters negative rest
      out_capacity (omega arith) m d h mi s q room
    ∙ ap some (timestamp_text-iso_text year month day hour minute second quarters negative low high)
