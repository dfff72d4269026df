-- ===== src/Codec/Submit.antt =====
-- SMS-SUBMIT in components/sms_codec/sms_pdu.c: build_submit_pdu, sms_submit_encode and
-- sms_submit_preflight. The segments are the caller's array, zeroed before the call; `none` is false.
pub mod RoundTrip
pub mod Units
pub mod Total
pub mod Preflight
use esp32_sms_gateway.Base.{
  ℕ, zero, suc, ◌+◌, ◌-◌, ◌*◌, ◌/◌, ◌%◌, Bool, true, false, not, ◌&&◌, ◌||◌, Option, none, some,
  List, [], ◌∷◌, ◌++◌, length, ltb, leb, ◌==◌, if◌then◌else◌, ◌>>=◌, Bytes,
}
use esp32_sms_gateway.Codec.Types.{Encoding, gsm7, ucs2, eight_bit, unknown, ConcatInfo}
use esp32_sms_gateway.Codec.Gsm7.{gsm7_septet_count, gsm7_encode}
use esp32_sms_gateway.Codec.Hex.{hex_encode}
use esp32_sms_gateway.Codec.Septets.{header_septets, pack_septets}
use esp32_sms_gateway.Codec.Address.{
  max_pdu_octets, buffer_append, buffer_put, address_validate, address_encode,
}
use esp32_sms_gateway.Codec.Header.{concat_header, no_concat}
use esp32_sms_gateway.Codec.Segments.{max_segments, split_gsm7, split_ucs2, utf8_to_ucs2}

-- sms_submit_segment_t
pub record SubmitSegment : Type 0 where
  pub encoding : Encoding
  pub concat : ConcatInfo
  pub segment_number : ℕ
  pub segment_count : ℕ
  pub tpdu_length_octets : ℕ
  pub pdu_hex : Bytes

-- SMS_MAX_PDU_HEX
abbrev pub max_pdu_hex : ℕ
max_pdu_hex = max_pdu_octets * 2 + 1

-- SMS_MAX_GSM7_SEPTETS
abbrev pub max_gsm7_septets : ℕ
max_gsm7_septets = max_segments * 160

-- SMS_MAX_UCS2_UNITS
abbrev pub max_ucs2_units : ℕ
max_ucs2_units = max_segments * 70

-- `first` of build_submit_pdu
unfoldable pub first_octet : Bool → Bytes → ℕ
first_octet request_status_report udh =
    0x01 + (if request_status_report then 0x20 else 0) + (if ltb 0 (length udh) then 0x40 else 0)

-- What build_submit_pdu puts from TP-DCS on.
unfoldable pub put_user_data : Bytes → Encoding → Bytes → Bytes → Option Bytes
put_user_data pdu gsm7 udh payload = do
  pdu1 ← buffer_put pdu 0x00
  (packed, udl) ← pack_septets payload udh 140
  pdu2 ← buffer_put pdu1 udl
  buffer_append pdu2 packed
put_user_data pdu ucs2 udh payload = do
  pdu1 ← buffer_put pdu 0x08
  if ltb 140 (length udh + length payload) then none else do
    pdu2 ← buffer_put pdu1 (length udh + length payload)
    pdu3 ← if ltb 0 (length udh) then buffer_append pdu2 udh else some pdu2
    buffer_append pdu3 payload
put_user_data pdu eight_bit udh payload = none
put_user_data pdu unknown udh payload = none

-- The octets of build_submit_pdu.
unfoldable pub submit_octets : Bytes → Encoding → Bool → Bytes → Bytes → Option Bytes
unfolding first_octet put_user_data
submit_octets recipient encoding request_status_report udh payload = do
  pdu1 ← buffer_put [] 0x00
  pdu2 ← buffer_put pdu1 (first_octet request_status_report udh)
  pdu3 ← buffer_put pdu2 0x00
  pdu4 ← address_encode pdu3 (some recipient)
  pdu5 ← buffer_put pdu4 0x00
  put_user_data pdu5 encoding udh payload

-- build_submit_pdu: the length of the TPDU and the hex digits.
unfoldable pub build_submit_pdu : Bytes → Encoding → Bool → Bytes → Bytes → Option (ℕ × Bytes)
unfolding submit_octets
build_submit_pdu recipient encoding request_status_report udh payload = do
  pdu ← submit_octets recipient encoding request_status_report udh payload
  hex ← hex_encode pdu max_pdu_hex
  some (length pdu - 1, hex)

-- A message in one segment.
unfoldable pub single_part : Bytes → Encoding → Bool → Bytes → Option (List SubmitSegment)
unfolding build_submit_pdu
single_part recipient encoding request_status_report payload = do
  (tpdu_length, hex) ← build_submit_pdu recipient encoding request_status_report [] payload
  some (
      record {
        encoding = encoding;
        concat = no_concat;
        segment_number = 1;
        segment_count = 1;
        tpdu_length_octets = tpdu_length;
        pdu_hex = hex;
      }
      ∷ [])

-- The loop over the parts, from number `i + 1` on; part numbers and counts are uint8_t, and `parts` is at
-- most 255 here.
unfoldable pub build_parts :
    Bytes → Encoding → Bool → ℕ → ℕ → ℕ → List Bytes → Option (List SubmitSegment)
unfolding build_submit_pdu
build_parts recipient encoding request_status_report reference parts i [] = some []
build_parts recipient encoding request_status_report reference parts i (payload ∷ payloads) = do
  (tpdu_length, hex) ←
      build_submit_pdu recipient encoding request_status_report
        (concat_header reference parts (i + 1)) payload
  segments ← build_parts recipient encoding request_status_report reference parts (i + 1) payloads
  some (
      record {
        encoding = encoding;
        concat = record {
          present = true;
          is_16bit = ltb 0xFF reference;
          reference = reference;
          total_parts = parts;
          part_number = i + 1;
        };
        segment_number = i + 1;
        segment_count = parts;
        tpdu_length_octets = tpdu_length;
        pdu_hex = hex;
      }
      ∷ segments)

-- The octets of units, the high one first.
unfoldable pub units_octets : Bytes → Bytes
units_octets [] = []
units_octets (u ∷ units) = (u / 256) ∷ (u % 256) ∷ units_octets units

unfoldable pub all_units_octets : List Bytes → List Bytes
unfolding units_octets
all_units_octets [] = []
all_units_octets (units ∷ segments) = units_octets units ∷ all_units_octets segments

-- `capacity` in both functions
unfoldable pub septets_per_segment : ℕ → ℕ
septets_per_segment reference = 160 - header_septets (length (concat_header reference 1 1))

-- `units_per_segment` in both functions
unfoldable pub units_per_segment : ℕ → ℕ
units_per_segment reference = (140 - length (concat_header reference 1 1)) / 2

-- sms_submit_encode on a text of the default alphabet, with the count of its septets.
unfoldable pub encode_gsm7 : Bytes → Bytes → Bool → ℕ → ℕ → ℕ → Option (List SubmitSegment)
unfolding single_part build_parts septets_per_segment
encode_gsm7 recipient text request_status_report reference capacity gsm_count =
    if ltb max_gsm7_septets gsm_count then none else do
      septets ← gsm7_encode (some text) max_gsm7_septets
      if leb (length septets) 160
          then single_part recipient gsm7 request_status_report septets
          else do
            payloads ← split_gsm7 septets (septets_per_segment reference)
            if ltb capacity (length payloads) || ltb 255 (length payloads)
                then none
                else build_parts recipient gsm7 request_status_report reference (length payloads) 0
                    payloads

-- sms_submit_encode on other texts.
unfoldable pub encode_ucs2 : Bytes → Bytes → Bool → ℕ → ℕ → Option (List SubmitSegment)
unfolding single_part build_parts all_units_octets units_per_segment
encode_ucs2 recipient text request_status_report reference capacity = do
  units ← utf8_to_ucs2 text max_ucs2_units
  if leb (length units) 70
      then single_part recipient ucs2 request_status_report (units_octets units)
      else do
        payloads ← split_ucs2 units (units_per_segment reference)
        if length payloads == 0 || ltb capacity (length payloads) || ltb 255 (length payloads)
            then none
            else build_parts recipient ucs2 request_status_report reference (length payloads) 0
                (all_units_octets payloads)

unfoldable pub encode_by_alphabet :
    Bytes → Bytes → Bool → ℕ → ℕ → Option ℕ → Option (List SubmitSegment)
unfolding encode_gsm7 encode_ucs2
encode_by_alphabet recipient text request_status_report reference capacity (some gsm_count) =
    encode_gsm7 recipient text request_status_report reference capacity gsm_count
encode_by_alphabet recipient text request_status_report reference capacity none =
    encode_ucs2 recipient text request_status_report reference capacity

-- sms_submit_encode; `capacity` is its max_segments.
unfoldable pub submit_encode :
    Option Bytes → Option Bytes → Bool → ℕ → ℕ → Option (List SubmitSegment)
unfolding encode_by_alphabet
submit_encode none text request_status_report reference capacity = none
submit_encode (some recipient) none request_status_report reference capacity = none
submit_encode (some recipient) (some text) request_status_report reference zero = none
submit_encode (some recipient) (some text) request_status_report reference (suc capacity) = do
  valid ← address_validate (some recipient)
  encode_by_alphabet recipient text request_status_report reference (suc capacity)
      (gsm7_septet_count (some text))

-- sms_submit_preflight on a text of the default alphabet.
unfoldable pub preflight_gsm7 : Bytes → ℕ → ℕ → Option (Encoding × ℕ)
unfolding septets_per_segment
preflight_gsm7 text reference gsm_count =
    if ltb max_gsm7_septets gsm_count
    then none
    else if leb gsm_count 160
    then some (gsm7, 1)
    else do
      septets ← gsm7_encode (some text) max_gsm7_septets
      payloads ← split_gsm7 septets (septets_per_segment reference)
      if length payloads == 0 || ltb max_segments (length payloads)
          then none
          else some (gsm7, length payloads)

-- sms_submit_preflight on other texts.
unfoldable pub preflight_ucs2 : Bytes → ℕ → Option (Encoding × ℕ)
unfolding units_per_segment
preflight_ucs2 text reference = do
  units ← utf8_to_ucs2 text max_ucs2_units
  if leb (length units) 70 then some (ucs2, 1) else do
    payloads ← split_ucs2 units (units_per_segment reference)
    if length payloads == 0 || ltb max_segments (length payloads)
        then none
        else some (ucs2, length payloads)

unfoldable pub preflight_by_alphabet : Bytes → ℕ → Option ℕ → Option (Encoding × ℕ)
unfolding preflight_gsm7 preflight_ucs2
preflight_by_alphabet text reference (some gsm_count) = preflight_gsm7 text reference gsm_count
preflight_by_alphabet text reference none = preflight_ucs2 text reference

-- sms_submit_preflight: the encoding and the count of segments.
unfoldable pub submit_preflight : Option Bytes → Option Bytes → ℕ → Option (Encoding × ℕ)
unfolding preflight_by_alphabet
submit_preflight none text reference = none
submit_preflight (some recipient) none reference = none
submit_preflight (some recipient) (some text) reference = do
  valid ← address_validate (some recipient)
  preflight_by_alphabet text reference (gsm7_septet_count (some text))
