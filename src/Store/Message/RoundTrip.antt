-- ===== src/Store/Message/RoundTrip.antt =====
-- A message comes back from its record.
use esp32_sms_gateway.Base.{◌≤◌, ◌≡◌, ◌≢◌, refl, Bool, true, false, not, some, arith, ◌==◌, ltb}
use esp32_sms_gateway.Store.Message.{
  Direction, inbound, outbound, Status, Encoding, Message, direction_code, direction_of,
  status_code, status_of, encoding_code, encoding_of, bool_code, record_encode, message_of,
  fields_terminated, record_decode,
}

direction_of_code : (d : Direction) → direction_of (direction_code d) ≡ d
direction_of_code inbound = refl
direction_of_code outbound = refl

pub status_of_code : (s : Status) → status_of (status_code s) ≡ s
status_of_code s = ground arith

encoding_of_code : (e : Encoding) → encoding_of (encoding_code e) ≡ e
encoding_of_code e = ground arith

flag_of_code : (b : Bool) → not (bool_code b == 0) ≡ b
flag_of_code true = refl
flag_of_code false = refl

codes_fit :
    (m : Message)
    → (ltb 1 (direction_code m.direction) ≡ false)
      × (ltb 8 (status_code m.status) ≡ false)
      × (ltb 3 (encoding_code m.encoding) ≡ false)
codes_fit m = (ground arith, ground arith, ground arith)

message_of-record_encode : (m : Message) → message_of (record_encode m) ≡ m
unfolding message_of record_encode
message_of-record_encode m =
    rw
      (
        direction_of_code m.direction,
        status_of_code m.status,
        encoding_of_code m.encoding,
        flag_of_code m.delivery_report_requested,
        flag_of_code m.concat.present,
        flag_of_code m.concat.is_16bit,
      )
      refl

-- A message that is stored with an id, no more than 16 segments and terminated texts comes back from
-- its record as it was.
pub record_decode-record_encode :
    (m : Message)
    → m.id ≢ 0
    → m.segment_count ≤ 16
    → fields_terminated m.sender m.recipient m.service_center_timestamp m.text m.raw_pdu ≡ true
    → record_decode (record_encode m) ≡ some m
unfolding record_decode
record_decode-record_encode m named few ended =
    let same = message_of-record_encode m in
    unfold record_encode in ground (arith, codes_fit m, same)
