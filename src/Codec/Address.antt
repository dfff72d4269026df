-- ===== src/Codec/Address.antt =====
-- address_validate, address_encode and address_decode of components/sms_codec/sms_pdu.c. The PDU
-- buffer is the list of the octets put into it.
pub mod RoundTrip
use esp32_sms_gateway.Base.{
  ℕ, zero, suc, ◌+◌, ◌-◌, ◌*◌, ◌/◌, ◌%◌, Bool, true, false, not, ◌&&◌, ◌||◌, Option, none, some,
  List, [], ◌∷◌, ◌++◌, length, get_or, take, all, ltb, leb, within, ◌==◌, if◌then◌else◌, ◌>>=◌,
  Bytes, peek, next, is_digit,
}
use esp32_sms_gateway.Codec.Gsm7.{gsm7_decode}
use esp32_sms_gateway.Codec.Septets.{unpack_septets}

-- SMS_MAX_PDU_OCTETS
abbrev pub max_pdu_octets : ℕ
max_pdu_octets = 176

-- buffer_append; buffer_put is the same for one octet.
unfoldable pub buffer_append : Bytes → Bytes → Option Bytes
buffer_append buffer octets =
    if ltb max_pdu_octets (length buffer + length octets) then none else some (buffer ++ octets)

-- buffer_put
unfoldable pub buffer_put : Bytes → ℕ → Option Bytes
buffer_put buffer octet =
    if leb max_pdu_octets (length buffer) then none else some (buffer ++ octet ∷ [])

-- The digits of an address, and whether it is international.
unfoldable pub valid_digits : Bytes → Bool → Option (Bytes × Bool)
valid_digits digits international =
    if length digits == 0 || ltb 20 (length digits)
    then none
    else if all is_digit digits
    then some (digits, international)
    else none

-- address_validate
unfoldable pub address_validate : Option Bytes → Option (Bytes × Bool)
unfolding valid_digits
address_validate none = none
address_validate (some address) =
    if peek address == b'+' then valid_digits (next address) true else valid_digits address false

-- The loop of address_encode, two digits a round: `low | (high << 4)`.
unfoldable pub put_digits : Bytes → Bytes → Option Bytes
unfolding buffer_put
put_digits buffer [] = some buffer
put_digits buffer (d ∷ []) = buffer_put buffer (d - b'0' + 15 * 16)
put_digits buffer (d ∷ e ∷ digits) = do
  buffer' ← buffer_put buffer (d - b'0' + (e - b'0') * 16)
  put_digits buffer' digits

-- address_encode
unfoldable pub address_encode : Bytes → Option Bytes → Option Bytes
unfolding put_digits address_validate
address_encode buffer address = do
  (digits, international) ← address_validate address
  buffer1 ← buffer_put buffer (length digits)
  buffer2 ← buffer_put buffer1 (if international then 0x91 else 0x81)
  put_digits buffer2 digits

-- The character of a semi-octet.
unfoldable pub nibble_char : ℕ → Option ℕ
nibble_char nibble =
    if leb nibble 9
    then some (b'0' + nibble)
    else if nibble == 10
    then some b'*'
    else if nibble == 11
    then some b'#'
    else if within 12 14 nibble
    then some (b'a' + (nibble - 12))
    else none

-- The semi-octet `i` of the octets.
unfoldable pub semi_octet : Bytes → ℕ → ℕ
semi_octet octets i =
    if i % 2 == 0 then get_or octets (i / 2) 0 % 16 else get_or octets (i / 2) 0 / 16

-- The loop of address_decode, from semi-octet `i` on; `out` is what is written.
unfoldable pub semi_octets_from : ℕ → Bytes → ℕ → ℕ → Bytes → Option Bytes
unfolding nibble_char semi_octet
semi_octets_from out_capacity octets zero i out = some out
semi_octets_from out_capacity octets (suc count) i out = do
  ch ← nibble_char (semi_octet octets i)
  if leb out_capacity (length out + 1)
      then none
      else semi_octets_from out_capacity octets count (i + 1) (out ++ ch ∷ [])

-- address_decode
unfoldable pub address_decode : Bytes → ℕ → ℕ → ℕ → Option Bytes
unfolding semi_octets_from
address_decode octets semi_octet_count toa out_capacity =
    let required_bytes = (semi_octet_count + 1) / 2 in
    let ton = toa / 16 % 8 in
    let septet_count = semi_octet_count * 4 / 7 in
    if out_capacity == 0 || ltb (length octets) required_bytes
    then none
    else if ton == 5
    then (if ltb 11 septet_count then none else do
      septets ← unpack_septets (take required_bytes octets) 0 septet_count
      gsm7_decode septets out_capacity)
    else if ton == 1
    then (if leb out_capacity 1
        then none
        else semi_octets_from out_capacity octets semi_octet_count 0 (b'+' ∷ []))
    else semi_octets_from out_capacity octets semi_octet_count 0 []
