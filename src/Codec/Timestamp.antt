-- ===== src/Codec/Timestamp.antt =====
-- timestamp_decode of components/sms_codec/sms_pdu.c and what it calls.
pub mod Fields
use esp32_sms_gateway.Base.{
  ℕ, zero, suc, ◌+◌, ◌-◌, ◌*◌, ◌/◌, ◌%◌, Bool, true, false, not, ◌&&◌, ◌||◌, Option, none, some,
  List, [], ◌∷◌, ◌++◌, length, get_or, take, drop, ltb, leb, within, ◌==◌, if◌then◌else◌, ◌>>=◌,
  Bytes,
}
use esp32_sms_gateway.Codec.Types.{Encoding, gsm7, ucs2, eight_bit, unknown, ConcatInfo}
use esp32_sms_gateway.Codec.Utf8.{utf8_append}
use esp32_sms_gateway.Codec.Gsm7.{gsm7_decode}
use esp32_sms_gateway.Codec.Hex.{
  PduError, invalid_hex, truncated, unsupported, invalid, text_too_long, Decoded, ok, fail,
  hex_decode,
}
use esp32_sms_gateway.Codec.Septets.{header_septets, unpack_septets}
use esp32_sms_gateway.Codec.Address.{max_pdu_octets, address_decode}
use esp32_sms_gateway.Codec.Header.{no_concat, parse_concat_udh, udh_has_national_language_shift}

-- semi_octet_value; `none` is -1.
unfoldable pub semi_octet_value : ℕ → Option ℕ
semi_octet_value byte =
    let tens = byte % 16 in
    let ones = byte / 16 % 16 in if ltb 9 tens || ltb 9 ones then none else some (tens * 10 + ones)

-- `%02d` of a number below 100
unfoldable pub two_digits : ℕ → Bytes
two_digits n = (b'0' + n / 10) ∷ (b'0' + n % 10) ∷ []

-- What snprintf writes in timestamp_decode: the year is 19yy or 20yy.
unfoldable pub timestamp_text : ℕ → ℕ → ℕ → ℕ → ℕ → ℕ → Bool → ℕ → Bytes
unfolding two_digits
timestamp_text yy month day hour minute second negative tz_minutes =
    two_digits (if leb 70 yy then 19 else 20)
    ++ two_digits yy
    ++ b'-' ∷ two_digits month
    ++ b'-' ∷ two_digits day
    ++ b'T' ∷ two_digits hour
    ++ b':' ∷ two_digits minute
    ++ b':' ∷ two_digits second
    ++ (if negative then b'-' else b'+') ∷ two_digits (tz_minutes / 60)
    ++ b':' ∷ two_digits (tz_minutes % 60)

-- `quarters` of timestamp_decode
unfoldable pub zone_quarters : ℕ → ℕ
zone_quarters octet = octet % 8 * 10 + octet / 16 % 16

-- The sum of semi-octets that timestamp_decode reads, with the zone's sign and quarters.
unfoldable pub timestamp_from : ℕ → ℕ → ℕ → ℕ → ℕ → ℕ → ℕ → ℕ → Option Bytes
unfolding timestamp_text zone_quarters
timestamp_from yy month day hour minute second zone out_capacity =
    let text =
      timestamp_text yy month day hour minute second (zone / 8 % 2 == 1)
        (zone_quarters zone * 15) in
    if not (within 1 12 month)
      || not (within 1 31 day)
      || ltb 23 hour
      || ltb 59 minute
      || ltb 59 second
      || ltb 79 (zone_quarters zone)
    then none
    else if leb out_capacity (length text)
    then none
    else some text

-- timestamp_decode
unfoldable pub timestamp_decode : Bytes → ℕ → Option Bytes
unfolding semi_octet_value timestamp_from
timestamp_decode octets out_capacity =
    if ltb (length octets) 7 || ltb out_capacity 24 then none else do
      yy ← semi_octet_value (get_or octets 0 0)
      month ← semi_octet_value (get_or octets 1 0)
      day ← semi_octet_value (get_or octets 2 0)
      hour ← semi_octet_value (get_or octets 3 0)
      minute ← semi_octet_value (get_or octets 4 0)
      second ← semi_octet_value (get_or octets 5 0)
      timestamp_from yy month day hour minute second (get_or octets 6 0) out_capacity
