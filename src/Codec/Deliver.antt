-- ===== src/Codec/Deliver.antt =====
-- The reading of whole PDUs in components/sms_codec/sms_pdu.c: sms_pdu_type_detect, sms_deliver_decode
-- and sms_status_report_decode. A delivered message is as it is left on every branch, failures included.
pub mod Layout
use esp32_sms_gateway.Base.{
  ℕ, zero, suc, ◌+◌, ◌-◌, ◌*◌, ◌/◌, ◌%◌, Bool, true, false, not, ◌&&◌, ◌||◌, Option, none, some,
  List, [], ◌∷◌, ◌++◌, length, get_or, take, drop, ltb, leb, within, ◌==◌, if◌then◌else◌, ◌>>=◌,
  Bytes,
}
use esp32_sms_gateway.Codec.Types.{Encoding, gsm7, ucs2, eight_bit, unknown, ConcatInfo}
use esp32_sms_gateway.Codec.Utf8.{utf8_append}
use esp32_sms_gateway.Codec.Gsm7.{gsm7_decode}
use esp32_sms_gateway.Codec.Hex.{
  PduError, invalid_hex, truncated, unsupported, invalid, text_too_long, Decoded, ok, fail,
  hex_decode,
}
use esp32_sms_gateway.Codec.Septets.{header_septets, unpack_septets}
use esp32_sms_gateway.Codec.Address.{max_pdu_octets, address_decode}
use esp32_sms_gateway.Codec.Header.{no_concat, parse_concat_udh, udh_has_national_language_shift}
use esp32_sms_gateway.Codec.Timestamp.{timestamp_decode}
use esp32_sms_gateway.Codec.UserData.{or_fail, decoded_then, decode_user_data}

-- sms_pdu_type_t
pub data PduType : Type 0 where
  unknown_pdu deliver status_report : PduType

-- sms_pdu_type_detect
unfoldable pub pdu_type_detect : Option Bytes → PduType
pdu_type_detect pdu_hex = of_octets (hex_decode pdu_hex max_pdu_octets)
  where
    of_octets : Decoded Bytes → PduType
    of_octets (fail error) = unknown_pdu
    of_octets (ok pdu) =
        let smsc_len = get_or pdu 0 0 in
        let kind = get_or pdu (1 + smsc_len) 0 % 4 in
        if ltb (length pdu) 2 || leb (length pdu) (1 + smsc_len)
        then unknown_pdu
        else if kind == 0
        then deliver
        else if kind == 2
        then status_report
        else unknown_pdu

-- SMS_MAX_ADDRESS_LENGTH
abbrev pub max_address_length : ℕ
max_address_length = 24

-- SMS_MAX_TEXT_UTF8
abbrev pub max_text_utf8 : ℕ
max_text_utf8 = 2048

-- sizeof(service_center_timestamp)
abbrev pub timestamp_size : ℕ
timestamp_size = 40

-- sms_deliver_t; a text field that is not written to its end is `none`: it is empty, or has what a
-- decoder wrote before it failed.
pub record SmsDeliver : Type 0 where
  pub sender : Option Bytes
  pub encoding : Encoding
  pub concat : ConcatInfo
  pub service_center_timestamp : Option Bytes
  pub text : Option Bytes

-- What memset leaves: SMS_ENCODING_GSM7 is 0.
abbrev pub no_deliver : SmsDeliver
no_deliver = record {
  sender = none;
  encoding = gsm7;
  concat = no_concat;
  service_center_timestamp = none;
  text = none;
}

-- sms_status_report_t
pub record SmsStatusReport : Type 0 where
  pub message_reference : ℕ
  pub recipient : Bytes
  pub service_center_timestamp : Bytes
  pub discharge_timestamp : Bytes
  pub status : ℕ
  pub delivered : Bool

-- The octets behind the service centre of a PDU.
unfoldable pub skip_smsc : Bytes → Decoded Bytes
skip_smsc pdu =
    let smsc_len = get_or pdu 0 0 in
    if ltb (length pdu) 2 || leb (length pdu) (1 + smsc_len)
    then fail truncated
    else ok (drop (1 + smsc_len) pdu)

-- The text of a message and the result: `none` is SMS_PDU_DECODE_OK.
abbrev pub with_text : SmsDeliver → Decoded Bytes → SmsDeliver × Option PduError
with_text out (ok text) = (record out { text = some text }, none)
with_text out (fail error) = (out, some error)

-- sms_deliver_decode behind the time stamp; `from_pid` starts with the protocol identifier.
unfoldable pub deliver_user_data : SmsDeliver → ℕ → Bytes → SmsDeliver × Option PduError
deliver_user_data out first from_pid =
    let (encoding, concat, text) =
      decode_user_data first (get_or from_pid 1 0) (get_or from_pid 9 0) (drop 10 from_pid)
        max_text_utf8 in
    if leb (length from_pid) 9
    then (out, some truncated)
    else with_text (record out { encoding = encoding; concat = concat }) text

unfoldable pub deliver_timestamp :
    SmsDeliver → ℕ → Bytes → Option Bytes → SmsDeliver × Option PduError
unfolding deliver_user_data
deliver_timestamp out first from_pid none = (out, some invalid)
deliver_timestamp out first from_pid (some timestamp) =
    deliver_user_data (record out { service_center_timestamp = some timestamp }) first from_pid

unfoldable pub deliver_sender : SmsDeliver → ℕ → Bytes → Option Bytes → SmsDeliver × Option PduError
unfolding timestamp_decode deliver_timestamp
deliver_sender out first from_pid none = (out, some invalid)
deliver_sender out first from_pid (some sender) =
    deliver_timestamp (record out { sender = some sender }) first from_pid
      (timestamp_decode (drop 2 from_pid) timestamp_size)

-- sms_deliver_decode behind the service centre.
unfoldable pub deliver_octets : Bytes → SmsDeliver × Option PduError
unfolding deliver_sender
deliver_octets pdu =
    let first = get_or pdu 0 0 in
    let oa_digits = get_or pdu 1 0 in
    let oa_bytes = (oa_digits + 1) / 2 in
    let from_pid = drop (3 + oa_bytes) pdu in
    if not (first % 4 == 0) || ltb (length pdu) 3
    then (no_deliver, some unsupported)
    else if ltb (length pdu) (3 + oa_bytes + 10)
    then (no_deliver, some invalid)
    else deliver_sender no_deliver first from_pid
        (address_decode (drop 3 pdu) oa_digits (get_or pdu 2 0) max_address_length)

-- sms_deliver_decode: what it leaves in `out`, and its result.
unfoldable pub deliver_decode : SmsDeliver → Option Bytes → SmsDeliver × Option PduError
unfolding skip_smsc deliver_octets
deliver_decode out pdu_hex = of_octets (hex_decode pdu_hex max_pdu_octets)
  where
    of_tpdu : Decoded Bytes → SmsDeliver × Option PduError
    of_tpdu (fail error) = (no_deliver, some error)
    of_tpdu (ok tpdu) = deliver_octets tpdu

    of_octets : Decoded Bytes → SmsDeliver × Option PduError
    of_octets (fail error) = (out, some error)
    of_octets (ok pdu) = of_tpdu (skip_smsc pdu)

-- sms_status_report_decode behind the service centre. The report is that of a success: its caller,
-- process_status_report_pdu, reads it only then.
unfoldable pub status_report_octets : Bytes → Decoded SmsStatusReport
unfolding timestamp_decode
status_report_octets pdu =
    let ra_digits = get_or pdu 2 0 in
    let ra_bytes = (ra_digits + 1) / 2 in
    let from_scts = drop (4 + ra_bytes) pdu in
    if not (get_or pdu 0 0 % 4 == 2) || ltb (length pdu) 4
    then fail unsupported
    else if ltb (length pdu) (4 + ra_bytes + 15)
    then fail invalid
    else or_fail invalid (address_decode (drop 4 pdu) ra_digits (get_or pdu 3 0) max_address_length)
        (λ recipient. or_fail invalid (timestamp_decode from_scts timestamp_size) (λ submitted.
          or_fail invalid (timestamp_decode (drop 7 from_scts) timestamp_size) (λ discharged.
            if leb (length from_scts) 14
            then fail truncated
            else ok (record {
              message_reference = get_or pdu 1 0;
              recipient = recipient;
              service_center_timestamp = submitted;
              discharge_timestamp = discharged;
              status = get_or from_scts 14 0;
              delivered = ltb (get_or from_scts 14 0) 0x20;
            }))))

-- sms_status_report_decode
unfoldable pub status_report_decode : Option Bytes → Decoded SmsStatusReport
unfolding skip_smsc status_report_octets
status_report_decode pdu_hex =
    decoded_then (hex_decode pdu_hex max_pdu_octets)
      (λ pdu. decoded_then (skip_smsc pdu) (λ tpdu. status_report_octets tpdu))

-- sms_encoding_name
unfoldable pub encoding_name : Encoding → Bytes
encoding_name gsm7 = b'g' ∷ b's' ∷ b'm' ∷ b'7' ∷ []
encoding_name ucs2 = b'u' ∷ b'c' ∷ b's' ∷ b'2' ∷ []
encoding_name eight_bit = b'8' ∷ b'b' ∷ b'i' ∷ b't' ∷ []
encoding_name unknown = b'u' ∷ b'n' ∷ b'k' ∷ b'n' ∷ b'o' ∷ b'w' ∷ b'n' ∷ []
