-- ===== src/Tests/Pdu.antt =====
-- PDUs of concrete messages (tests/test_sms_codec.c).
use esp32_sms_gateway.Base.{
  inl, ◌*◌, ◌≡◌, ◌≤◌, refl, true, false, none, some, List, [], ◌∷◌, ◌++◌, length, Bytes, codes, All,
  arith,
}
use esp32_sms_gateway.Codec.Types.{gsm7, ucs2, eight_bit}
use esp32_sms_gateway.Codec.Utf8.{utf8_next, utf8_each, utf8_append, utf8_bytes}
use esp32_sms_gateway.Codec.Gsm7.{
  gsm7_basic, gsm7_extension, find_basic, find_extension, gsm7_find, extension_decode,
  gsm7_septet_count, gsm7_decode,
}
use esp32_sms_gateway.Codec.Hex.{hex_digits, hex_encode, hex_decode, hex_pairs, ok, unsupported}
use esp32_sms_gateway.Codec.Septets.{pack_septets, unpack_septets}
use esp32_sms_gateway.Codec.Septets.RoundTrip.{IsPacked, unpack_septets-pack_septets}
use esp32_sms_gateway.Codec.Address.{
  address_validate, address_decode, address_encode, buffer_put, buffer_append,
}
use esp32_sms_gateway.Codec.Header.{no_concat, concat_header}
use esp32_sms_gateway.Codec.Header.RoundTrip.{part}
use esp32_sms_gateway.Codec.Segments.{split_gsm7, utf8_to_ucs2, max_segments}
use esp32_sms_gateway.Codec.Segments.Cut.{flatten, IsSegment}
use esp32_sms_gateway.Codec.Segments.Texts.{opens, DecodeTo, gsm7_decode-split_gsm7}
use esp32_sms_gateway.Codec.Timestamp.{timestamp_decode}
use esp32_sms_gateway.Codec.Timestamp.Fields.{semi, zone, timestamp_decode-semi}
use esp32_sms_gateway.Codec.UserData.{decode_user_data}
use esp32_sms_gateway.Codec.UserData.Text.{decode_user_data-utf8_to_ucs2}
use esp32_sms_gateway.Codec.Submit.{submit_octets, submit_preflight, submit_encode, units_octets}
use esp32_sms_gateway.Codec.Submit.Preflight.{Encodes, submit_encode-submit_preflight}
use esp32_sms_gateway.Codec.Submit.RoundTrip.{ReadsAs, decode_user_data-submit_octets}
use esp32_sms_gateway.Codec.Deliver.{deliver_decode, no_deliver}
use esp32_sms_gateway.Codec.Deliver.Layout.{deliver_decode-message, deliver_decode-eight_bit}

abbrev recipient : Bytes
recipient = codes "+491701234567"

preflight_hello : submit_preflight (some recipient) (some (codes "Hello")) 7 ≡ some (gsm7, 1)
unfolding submit_preflight gsm7_septet_count utf8_each utf8_next gsm7_find find_basic find_extension
    gsm7_basic gsm7_extension address_validate
preflight_hello = refl

submit_encode-submit_preflight_example :
    Encodes gsm7 1 (submit_encode (some recipient) (some (codes "Hello")) true 7 16)
submit_encode-submit_preflight_example =
    submit_encode-submit_preflight (some recipient) (some (codes "Hello")) true 7 16 1 gsm7
      (omega arith) (omega arith) preflight_hello

-- "Hi" as the first of two parts with a reference of 16 bits
abbrev hi : Bytes
hi = 0x48 ∷ 0x69 ∷ []

abbrev hi_pdu : Bytes
hi_pdu =
    0 ∷ 65 ∷ 0 ∷ 12 ∷ 145 ∷ 148 ∷ 113 ∷ 16 ∷ 50 ∷ 84 ∷ 118 ∷ 0 ∷ 0 ∷ 10 ∷ 6 ∷ 8 ∷ 4 ∷ 1 ∷ 44 ∷ 2 ∷ 1
    ∷ 200 ∷ 52 ∷ []

hi_submitted :
    submit_octets recipient gsm7 false (0x06 ∷ 0x08 ∷ 0x04 ∷ 1 ∷ 44 ∷ 2 ∷ 1 ∷ []) hi ≡ some hi_pdu
unfolding submit_octets buffer_put buffer_append address_encode pack_septets
hi_submitted = refl

hi_decoded : gsm7_decode hi 2048 ≡ some (codes "Hi")
unfolding gsm7_decode utf8_append utf8_bytes extension_decode gsm7_basic gsm7_extension
hi_decoded = refl

decode_user_data-submit_octets_example : ReadsAs hi_pdu recipient (part 300 2 1) (codes "Hi") 2048
unfolding concat_header
decode_user_data-submit_octets_example =
    decode_user_data-submit_octets recipient hi (codes "Hi") false 300 2 1 2047 (omega arith)
      (omega arith) (omega arith) (omega arith) (omega arith) (omega arith) hi_decoded hi_submitted

hi_packed : pack_septets hi [] 140 ≡ some (200 ∷ 52 ∷ [], 2)
unfolding pack_septets
hi_packed = refl

unpack_septets-pack_septets_example : IsPacked hi [] (200 ∷ 52 ∷ []) 2
unpack_septets-pack_septets_example =
    unpack_septets-pack_septets hi [] 140 (omega arith) tt hi_packed

-- An emoji and "!"
abbrev emoji : Bytes
emoji = 0xF0 ∷ 0x9F ∷ 0x98 ∷ 0x80 ∷ b'!' ∷ []

abbrev emoji_units : Bytes
emoji_units = 0xD83D ∷ 0xDE00 ∷ 0x21 ∷ []

emoji_split : utf8_to_ucs2 emoji 1120 ≡ some emoji_units
unfolding utf8_to_ucs2 utf8_each utf8_next
emoji_split = refl

decode_user_data-utf8_to_ucs2_example :
    decode_user_data 0x01 8 (2 * length emoji_units) (units_octets emoji_units) 2048
    ≡ (ucs2, no_concat, ok emoji)
decode_user_data-utf8_to_ucs2_example =
    decode_user_data-utf8_to_ucs2 emoji 1120 2047 0x01 (omega arith) (omega arith) (omega arith)
      (omega arith) emoji_split

-- "{}A", cut after at most three septets
abbrev braces : Bytes
braces = 0x1B ∷ 0x28 ∷ 0x1B ∷ 0x29 ∷ 0x41 ∷ []

abbrev cut_braces : List Bytes
cut_braces = (0x1B ∷ 0x28 ∷ []) ∷ (0x1B ∷ 0x29 ∷ 0x41 ∷ []) ∷ []

braces_decoded : gsm7_decode braces 64 ≡ some (codes "{}A")
unfolding gsm7_decode utf8_append utf8_bytes extension_decode gsm7_basic gsm7_extension
braces_decoded = refl

braces_split : split_gsm7 braces 3 ≡ some cut_braces
unfolding split_gsm7
braces_split = refl

gsm7_decode-split_gsm7_example :
    (texts : List Bytes) × (codes "{}A" ≡ flatten texts)
    × DecodeTo 64 cut_braces texts
    × All (IsSegment 3 opens) cut_braces
    × (length cut_braces ≤ max_segments)
gsm7_decode-split_gsm7_example =
    gsm7_decode-split_gsm7 braces (codes "{}A") 3 64 braces_decoded braces_split

-- 4 March 2026, 05:06:07, one hour east
timestamp_decode-semi_example :
    timestamp_decode (semi 26 ∷ semi 3 ∷ semi 4 ∷ semi 5 ∷ semi 6 ∷ semi 7 ∷ zone 4 false ∷ []) 40
    ≡ some (codes "2026-03-04T05:06:07+01:00")
timestamp_decode-semi_example =
    timestamp_decode-semi 2026 3 4 5 6 7 4 false [] 40 (omega arith) (omega arith) (omega arith)
      (omega arith) (omega arith) (omega arith) (omega arith) (omega arith)

abbrev smsc : Bytes
smsc = 0x91 ∷ 0x19 ∷ []

abbrev number : Bytes
number = 0x94 ∷ 0x71 ∷ 0x10 ∷ 0x32 ∷ 0x54 ∷ 0x76 ∷ []

abbrev stamp : Bytes
stamp = 0x62 ∷ 0x30 ∷ 0x40 ∷ 0x50 ∷ 0x60 ∷ 0x70 ∷ 0x40 ∷ []

abbrev delivered_pdu : Bytes
delivered_pdu = 2 ∷ smsc ++ 0x04 ∷ 12 ∷ 0x91 ∷ number ++ 0 ∷ 0 ∷ stamp ++ 2 ∷ 200 ∷ 52 ∷ []

delivered_hex : hex_encode delivered_pdu 353 ≡ some (hex_digits delivered_pdu)
unfolding hex_encode
delivered_hex = refl

sender_decoded :
    address_decode (number ++ 0 ∷ 0 ∷ stamp ++ 2 ∷ 200 ∷ 52 ∷ []) 12 0x91 24 ≡ some recipient
unfolding address_decode
sender_decoded = refl

stamp_decoded :
    timestamp_decode (stamp ++ 2 ∷ 200 ∷ 52 ∷ []) 40 ≡ some (codes "2026-03-04T05:06:07+01:00")
unfolding timestamp_decode
stamp_decoded = refl

text_decoded : decode_user_data 0x04 0 2 (200 ∷ 52 ∷ []) 2048 ≡ (gsm7, no_concat, ok (codes "Hi"))
unfolding decode_user_data unpack_septets gsm7_decode utf8_append utf8_bytes extension_decode
    gsm7_basic gsm7_extension
text_decoded = refl

deliver_decode-message_example : deliver_decode no_deliver (some (hex_digits delivered_pdu)) ≡ (
  record {
    sender = some recipient;
    encoding = gsm7;
    concat = no_concat;
    service_center_timestamp = some (codes "2026-03-04T05:06:07+01:00");
    text = some (codes "Hi");
  },
  none,
)
deliver_decode-message_example =
    deliver_decode-message no_deliver smsc number stamp (200 ∷ 52 ∷ []) 0x04 12 0x91 0 0 2 353
      recipient (codes "2026-03-04T05:06:07+01:00") (codes "Hi") gsm7 no_concat (omega arith)
      (omega arith) delivered_hex refl refl refl sender_decoded stamp_decoded text_decoded

-- "DEADBEEF" as 8-bit data, in a PDU without a service centre
abbrev data_pdu : Bytes
data_pdu =
    0 ∷ [] ++ 0x04 ∷ 12 ∷ 0x91 ∷ number ++ 0 ∷ 4 ∷ stamp ++ 4 ∷ 0xDE ∷ 0xAD ∷ 0xBE ∷ 0xEF ∷ []

data_hex : hex_encode data_pdu 353 ≡ some (hex_digits data_pdu)
unfolding hex_encode
data_hex = refl

data_sender :
    address_decode (number ++ 0 ∷ 4 ∷ stamp ++ 4 ∷ 0xDE ∷ 0xAD ∷ 0xBE ∷ 0xEF ∷ []) 12 0x91 24
    ≡ some recipient
unfolding address_decode
data_sender = refl

data_stamp :
    timestamp_decode (stamp ++ 4 ∷ 0xDE ∷ 0xAD ∷ 0xBE ∷ 0xEF ∷ []) 40
    ≡ some (codes "2026-03-04T05:06:07+01:00")
unfolding timestamp_decode
data_stamp = refl

deliver_decode-eight_bit_example : deliver_decode no_deliver (some (hex_digits data_pdu)) ≡ (
  record {
    sender = some recipient;
    encoding = eight_bit;
    concat = no_concat;
    service_center_timestamp = some (codes "2026-03-04T05:06:07+01:00");
    text = none;
  },
  some unsupported,
)
deliver_decode-eight_bit_example =
    deliver_decode-eight_bit no_deliver [] number stamp (0xDE ∷ 0xAD ∷ 0xBE ∷ 0xEF ∷ []) 0x04 12
      0x91 0 4 4 353 recipient (codes "2026-03-04T05:06:07+01:00") (omega arith) (omega arith)
      data_hex refl refl refl data_sender data_stamp (inl (omega arith, omega arith))

-- A message of octets is refused, but its sender, its time and its encoding are there.
binary_unsupported :
    deliver_decode no_deliver
      (some (codes "07916407058099F9040B916407950303F100048921222140140004DEADBEEF"))
    ≡ (
      record {
        sender = some (codes "+46705930301");
        encoding = eight_bit;
        concat = no_concat;
        service_center_timestamp = some (codes "1998-12-22T12:04:41+00:00");
        text = none;
      },
      some unsupported,
    )
unfolding deliver_decode hex_decode hex_pairs address_decode timestamp_decode decode_user_data
binary_unsupported = refl
