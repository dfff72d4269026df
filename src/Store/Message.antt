-- ===== src/Store/Message.antt =====
-- The messages of components/sms_store/sms_store.c and the records that it persists. A char array is
-- the list of its bytes, with or without a NUL.
pub mod RoundTrip
use esp32_sms_gateway.Base.{
  ℕ, ◌+◌, Bool, true, false, not, ◌&&◌, ◌||◌, Option, none, some, List, [], ◌∷◌, ltb, ◌==◌,
  if◌then◌else◌, Bytes, contains, take, ℤ, codes,
}
pub use esp32_sms_gateway.Codec.Types.{Encoding, gsm7, ucs2, eight_bit, unknown, ConcatInfo}

-- sms_direction_t
pub data Direction : Type 0 where
  inbound outbound : Direction

-- sms_message_status_t
pub data Status : Type 0 where
  partial received queued sending sent delivered failed unsupported uncertain : Status

-- sms_message_t
pub record Message : Type 0 where
  pub id : ℕ
  pub direction : Direction
  pub status : Status
  pub encoding : Encoding
  pub sender : Bytes
  pub recipient : Bytes
  pub service_center_timestamp : Bytes
  pub text : Bytes
  pub raw_pdu : Bytes
  pub concat : ConcatInfo
  pub delivery_report_requested : Bool
  pub concat_reference : ℕ
  pub segment_count : ℕ
  pub segment_sent_mask : ℕ
  pub segment_delivered_mask : ℕ
  pub segment_failed_mask : ℕ
  pub modem_reference : List ℕ
  pub delivery_status : List ℕ
  pub inflight_segment : ℕ
  pub send_attempts : ℕ
  pub last_modem_error : ℤ

-- persisted_record_t
pub record PersistedRecord : Type 0 where
  pub magic : ℕ
  pub version : ℕ
  pub size : ℕ
  pub id : ℕ
  pub direction : ℕ
  pub status : ℕ
  pub encoding : ℕ
  pub delivery_report_requested : ℕ
  pub sender : Bytes
  pub recipient : Bytes
  pub service_center_timestamp : Bytes
  pub text : Bytes
  pub raw_pdu : Bytes
  pub concat_present : ℕ
  pub concat_is_16bit : ℕ
  pub concat_reference : ℕ
  pub concat_total_parts : ℕ
  pub concat_part_number : ℕ
  pub outbound_concat_reference : ℕ
  pub segment_count : ℕ
  pub segment_sent_mask : ℕ
  pub segment_delivered_mask : ℕ
  pub segment_failed_mask : ℕ
  pub modem_reference : List ℕ
  pub delivery_status : List ℕ
  pub inflight_segment : ℕ
  pub send_attempts : ℕ
  pub last_modem_error : ℤ

abbrev pub record_magic : ℕ
record_magic = 0x534D5347

-- sizeof(persisted_record_t), which is packed
abbrev pub record_size : ℕ
record_size = 4606

-- The numbers of the enumerators, and the enumerator of a number in its range.
abbrev pub direction_code : Direction → ℕ
direction_code inbound = 0
direction_code outbound = 1

abbrev pub direction_of : ℕ → Direction
direction_of n = if n == 0 then inbound else outbound

abbrev pub status_code : Status → ℕ
status_code partial = 0
status_code received = 1
status_code queued = 2
status_code sending = 3
status_code sent = 4
status_code delivered = 5
status_code failed = 6
status_code unsupported = 7
status_code uncertain = 8

abbrev pub status_of : ℕ → Status
status_of n =
    if n == 0
    then partial
    else if n == 1
    then received
    else if n == 2
    then queued
    else if n == 3
    then sending
    else if n == 4
    then sent
    else if n == 5
    then delivered
    else if n == 6
    then failed
    else if n == 7
    then unsupported
    else uncertain

abbrev pub encoding_code : Encoding → ℕ
encoding_code gsm7 = 0
encoding_code ucs2 = 1
encoding_code eight_bit = 2
encoding_code unknown = 3

abbrev pub encoding_of : ℕ → Encoding
encoding_of n =
    if n == 0 then gsm7 else if n == 1 then ucs2 else if n == 2 then eight_bit else unknown

-- `flag ? 1U : 0U`
abbrev pub bool_code : Bool → ℕ
bool_code flag = if flag then 1 else 0

-- terminated_field
unfoldable pub terminated_field : Bytes → ℕ → Bool
terminated_field field capacity = contains (take capacity field) 0

-- record_encode
unfoldable pub record_encode : Message → PersistedRecord
record_encode m = record {
  magic = record_magic;
  version = 1;
  size = record_size;
  id = m.id;
  direction = direction_code m.direction;
  status = status_code m.status;
  encoding = encoding_code m.encoding;
  delivery_report_requested = bool_code m.delivery_report_requested;
  sender = m.sender;
  recipient = m.recipient;
  service_center_timestamp = m.service_center_timestamp;
  text = m.text;
  raw_pdu = m.raw_pdu;
  concat_present = bool_code m.concat.present;
  concat_is_16bit = bool_code m.concat.is_16bit;
  concat_reference = m.concat.reference;
  concat_total_parts = m.concat.total_parts;
  concat_part_number = m.concat.part_number;
  outbound_concat_reference = m.concat_reference;
  segment_count = m.segment_count;
  segment_sent_mask = m.segment_sent_mask;
  segment_delivered_mask = m.segment_delivered_mask;
  segment_failed_mask = m.segment_failed_mask;
  modem_reference = m.modem_reference;
  delivery_status = m.delivery_status;
  inflight_segment = m.inflight_segment;
  send_attempts = m.send_attempts;
  last_modem_error = m.last_modem_error;
}

-- The message that record_decode fills from a record that passed its checks.
unfoldable pub message_of : PersistedRecord → Message
message_of r = record {
  id = r.id;
  direction = direction_of r.direction;
  status = status_of r.status;
  encoding = encoding_of r.encoding;
  sender = r.sender;
  recipient = r.recipient;
  service_center_timestamp = r.service_center_timestamp;
  text = r.text;
  raw_pdu = r.raw_pdu;
  concat = record {
    present = not (r.concat_present == 0);
    is_16bit = not (r.concat_is_16bit == 0);
    reference = r.concat_reference;
    total_parts = r.concat_total_parts;
    part_number = r.concat_part_number;
  };
  delivery_report_requested = not (r.delivery_report_requested == 0);
  concat_reference = r.outbound_concat_reference;
  segment_count = r.segment_count;
  segment_sent_mask = r.segment_sent_mask;
  segment_delivered_mask = r.segment_delivered_mask;
  segment_failed_mask = r.segment_failed_mask;
  modem_reference = r.modem_reference;
  delivery_status = r.delivery_status;
  inflight_segment = r.inflight_segment;
  send_attempts = r.send_attempts;
  last_modem_error = r.last_modem_error;
}

-- The fields that have to end with a NUL, in record_decode and in sms_store_save.
unfoldable pub fields_terminated : Bytes → Bytes → Bytes → Bytes → Bytes → Bool
fields_terminated sender recipient timestamp text raw_pdu =
    terminated_field sender 24
    && terminated_field recipient 24
    && terminated_field timestamp 40
    && terminated_field text 4096
    && terminated_field raw_pdu 353

-- record_decode
unfoldable pub record_decode : PersistedRecord → Option Message
record_decode r =
    if not (r.magic == record_magic)
      || not (r.version == 1)
      || not (r.size == record_size)
      || r.id == 0
      || ltb 1 r.direction
      || ltb 8 r.status
      || ltb 3 r.encoding
      || ltb 16 r.segment_count
      || not (fields_terminated r.sender r.recipient r.service_center_timestamp r.text r.raw_pdu)
    then none
    else some (message_of r)

-- sms_message_status_name
unfoldable pub status_name : Status → Bytes
status_name partial = codes "partial"
status_name received = codes "received"
status_name queued = codes "queued"
status_name sending = codes "sending"
status_name sent = codes "sent"
status_name delivered = codes "delivered"
status_name failed = codes "failed"
status_name unsupported = codes "unsupported"
status_name uncertain = codes "uncertain"
