-- ===== src/Codec/Deliver/Layout.antt =====
-- A message as the network delivers it, from its parts.
use esp32_sms_gateway.Base.{
  ℕ, zero, suc, ◌+◌, ◌/◌, ◌%◌, ◌≤◌, ◌<◌, ◌≡◌, ◌⊎◌, inl, inr, refl, true, false, ◌||◌, none, some,
  [], ◌∷◌, ◌++◌, length, length-append, get_or, drop, ltb, leb, ◌==◌, Bytes, arith,
}
use esp32_sms_gateway.Codec.Types.{Encoding, eight_bit, ConcatInfo}
use esp32_sms_gateway.Codec.Hex.{Decoded, ok, fail, unsupported, hex_encode}
use esp32_sms_gateway.Codec.Hex.RoundTrip.{IsOctets, hex_decode-hex_encode}
use esp32_sms_gateway.Codec.Address.{max_pdu_octets, address_decode}
use esp32_sms_gateway.Codec.Timestamp.{timestamp_decode}
use esp32_sms_gateway.Codec.UserData.{dcs_encoding, decode_user_data}
use esp32_sms_gateway.Codec.Header.{no_concat}
use esp32_sms_gateway.Codec.Deliver.{
  with_text, SmsDeliver, skip_smsc, deliver_octets, deliver_sender, deliver_timestamp,
  deliver_user_data, deliver_decode, max_address_length, max_text_utf8, timestamp_size,
}

drop-append : (front s : Bytes) → drop (length front) (front ++ s) ≡ s
drop-append [] s = refl
drop-append (x ∷ front) s = drop-append front s

drop_at : (n : ℕ) (front s : Bytes) → n ≡ length front → drop n (front ++ s) ≡ s
drop_at n front s e = rw e (drop-append front s)

get_or_at : (n : ℕ) (front s : Bytes) → n ≡ length front → get_or (front ++ s) n 0 ≡ get_or s 0 0
get_or_at zero [] s e = refl
get_or_at zero (x ∷ front) s e = absurd (omega arith)
get_or_at (suc n) [] s e = absurd (omega arith)
get_or_at (suc n) (x ∷ front) s e = get_or_at n front s (omega arith)

drop_past :
    (n : ℕ) (front : Bytes) (x : ℕ) (s : Bytes)
    → n ≡ length front
    → drop (suc n) (front ++ x ∷ s) ≡ s
drop_past zero [] x s e = refl
drop_past zero (y ∷ front) x s e = absurd (omega arith)
drop_past (suc n) [] x s e = absurd (omega arith)
drop_past (suc n) (y ∷ front) x s e = drop_past n front x s (omega arith)

not_below : (n m : ℕ) → n ≤ m → ltb m n ≡ false
not_below n m h = ground arith

not_above : (n m : ℕ) → n < m → leb m n ≡ false
not_above n m h = ground arith

-- The octets behind the address of a message: protocol identifier, coding scheme, time and user data.
abbrev pub behind_address : ℕ → ℕ → Bytes → ℕ → Bytes → Bytes
behind_address pid dcs stamp udl ud = pid ∷ dcs ∷ stamp ++ udl ∷ ud

-- The octets of a message behind its service centre.
abbrev pub message : ℕ → ℕ → ℕ → Bytes → Bytes → Bytes
message first count toa semi behind = first ∷ count ∷ toa ∷ semi ++ behind

skip_smsc-message :
    (smsc : Bytes) (octet : ℕ) (tpdu : Bytes)
    → skip_smsc (length smsc ∷ smsc ++ octet ∷ tpdu) ≡ ok (octet ∷ tpdu)
unfolding skip_smsc
skip_smsc-message smsc octet tpdu =
    let size = length-append smsc (octet ∷ tpdu) in
    let open' : (ltb (suc (length (smsc ++ octet ∷ tpdu))) 2
          || leb (suc (length (smsc ++ octet ∷ tpdu))) (1 + length smsc))
        ≡ false =
      ground (arith, size) in
    rw (open', drop_at (1 + length smsc) (length smsc ∷ smsc) (octet ∷ tpdu) (omega arith)) refl

deliver_octets-with_text :
    (first count toa pid dcs udl : ℕ) (semi stamp ud sender timestamp : Bytes)
    (decoded : Decoded Bytes) (encoding : Encoding) (concat : ConcatInfo)
    → first % 4 ≡ 0
    → length semi ≡ (count + 1) / 2
    → length stamp ≡ 7
    → address_decode (semi ++ behind_address pid dcs stamp udl ud) count toa max_address_length
      ≡ some sender
    → timestamp_decode (stamp ++ udl ∷ ud) timestamp_size ≡ some timestamp
    → decode_user_data first dcs udl ud max_text_utf8 ≡ (encoding, concat, decoded)
    → deliver_octets (message first count toa semi (behind_address pid dcs stamp udl ud))
      ≡ with_text
          (record {
            sender = some sender;
            encoding = encoding;
            concat = concat;
            service_center_timestamp = some timestamp;
            text = none;
          })
          decoded
unfolding deliver_octets deliver_sender deliver_timestamp deliver_user_data
deliver_octets-with_text first count toa pid dcs udl semi stamp ud sender timestamp decoded encoding
      concat kind size seven a t u =
    let rest = behind_address pid dcs stamp udl ud in
    let whole = length-append semi rest in
    let tail = length-append stamp (udl ∷ ud) in
    let is_deliver : (first % 4 == 0) ≡ true = ground arith in
    let some_octets : ltb (length (message first count toa semi rest)) 3 ≡ false =
      not_below 3 _ (omega arith) in
    let long : ltb (length (message first count toa semi rest)) (3 + (count + 1) / 2 + 10) ≡ false =
      not_below (3 + (count + 1) / 2 + 10) _ (omega (arith, whole, tail)) in
    let cut : drop (3 + (count + 1) / 2) (message first count toa semi rest) ≡ rest =
      drop_at (3 + (count + 1) / 2) (first ∷ count ∷ toa ∷ semi) rest (omega arith) in
    let end' : leb (length rest) 9 ≡ false = not_above 9 _ (omega (arith, tail)) in
    let length_octet : get_or rest 9 0 ≡ udl =
      get_or_at 9 (pid ∷ dcs ∷ stamp) (udl ∷ ud) (omega arith) in
    let user_data : drop 10 rest ≡ ud = drop_past 9 (pid ∷ dcs ∷ stamp) udl ud (omega arith) in
    rw (is_deliver, some_octets, long, cut, a, t, end', length_octet, user_data, u) refl

-- The same from the hex digits of the whole.
deliver_decode-with_text :
    (out : SmsDeliver) (smsc semi stamp ud : Bytes) (first count toa pid dcs udl out_capacity : ℕ)
    {hex : Bytes} (sender timestamp : Bytes) (decoded : Decoded Bytes) (encoding : Encoding)
    (concat : ConcatInfo)
    → IsOctets
        (length smsc ∷ smsc ++ message first count toa semi (behind_address pid dcs stamp udl ud))
    → length
        (length smsc ∷ smsc ++ message first count toa semi (behind_address pid dcs stamp udl ud))
      ≤ max_pdu_octets
    → hex_encode
        (length smsc ∷ smsc ++ message first count toa semi (behind_address pid dcs stamp udl ud))
        out_capacity
      ≡ some hex
    → first % 4 ≡ 0
    → length semi ≡ (count + 1) / 2
    → length stamp ≡ 7
    → address_decode (semi ++ behind_address pid dcs stamp udl ud) count toa max_address_length
      ≡ some sender
    → timestamp_decode (stamp ++ udl ∷ ud) timestamp_size ≡ some timestamp
    → decode_user_data first dcs udl ud max_text_utf8 ≡ (encoding, concat, decoded)
    → deliver_decode out (some hex)
      ≡ with_text
          (record {
            sender = some sender;
            encoding = encoding;
            concat = concat;
            service_center_timestamp = some timestamp;
            text = none;
          })
          decoded
unfolding deliver_decode
deliver_decode-with_text out smsc semi stamp ud first count toa pid dcs udl out_capacity sender
      timestamp decoded encoding concat octets few digits kind size seven a t u =
    let tpdu = message first count toa semi (behind_address pid dcs stamp udl ud) in
    rw
      (
        hex_decode-hex_encode (length smsc ∷ smsc ++ tpdu) out_capacity max_pdu_octets octets few
            digits,
        skip_smsc-message smsc first (count ∷ toa ∷ semi ++ behind_address pid dcs stamp udl ud),
      )
      (deliver_octets-with_text first count toa pid dcs udl semi stamp ud sender timestamp decoded
        encoding concat kind size seven a t u)

-- A delivered message whose parts are decoded, each by its decoder, is decoded to them from the hex digits of
-- its octets: the service centre of any length, the type, the address, the identifiers, the time in seven
-- octets and the user data, as long as all of it has at most 176 octets.
pub deliver_decode-message :
    (out : SmsDeliver) (smsc semi stamp ud : Bytes) (first count toa pid dcs udl out_capacity : ℕ)
    {hex : Bytes} (sender timestamp text : Bytes) (encoding : Encoding) (concat : ConcatInfo)
    → IsOctets
        (length smsc ∷ smsc ++ message first count toa semi (behind_address pid dcs stamp udl ud))
    → length
        (length smsc ∷ smsc ++ message first count toa semi (behind_address pid dcs stamp udl ud))
      ≤ max_pdu_octets
    → hex_encode
        (length smsc ∷ smsc ++ message first count toa semi (behind_address pid dcs stamp udl ud))
        out_capacity
      ≡ some hex
    → first % 4 ≡ 0
    → length semi ≡ (count + 1) / 2
    → length stamp ≡ 7
    → address_decode (semi ++ behind_address pid dcs stamp udl ud) count toa max_address_length
      ≡ some sender
    → timestamp_decode (stamp ++ udl ∷ ud) timestamp_size ≡ some timestamp
    → decode_user_data first dcs udl ud max_text_utf8 ≡ (encoding, concat, ok text)
    → deliver_decode out (some hex) ≡ (
      record {
        sender = some sender;
        encoding = encoding;
        concat = concat;
        service_center_timestamp = some timestamp;
        text = some text;
      },
      none,
    )
deliver_decode-message out smsc semi stamp ud first count toa pid dcs udl out_capacity sender
      timestamp text encoding concat octets few digits kind size seven a t u =
    deliver_decode-with_text out smsc semi stamp ud first count toa pid dcs udl out_capacity sender
      timestamp (ok text) encoding concat octets few digits kind size seven a t u

decode_user_data-eight_bit :
    (first dcs udl : ℕ) (ud : Bytes)
    → ((dcs / 32 ≡ 0) × (dcs / 4 % 4 ≡ 1)) ⊎ ((dcs / 16 ≡ 15) × (dcs / 4 % 2 ≡ 1))
    → decode_user_data first dcs udl ud max_text_utf8 ≡ (eight_bit, no_concat, fail unsupported)
unfolding decode_user_data dcs_encoding
decode_user_data-eight_bit first dcs udl ud (inl (plain, data')) =
    let group : (dcs / 64 == 0) ≡ true = ground arith in
    let open' : (dcs / 32 % 2 == 1) ≡ false = ground arith in rw (group, open', data') refl
decode_user_data-eight_bit first dcs udl ud (inr (class, data')) =
    let group : (dcs / 64 == 0) ≡ false = ground arith in rw (group, class, data') refl

-- A message of 8-bit data, by the general coding group without compression or by the group of message classes,
-- is refused as unsupported from the hex digits of its octets, but its sender, its time and the encoding are
-- left for the caller, which stores it by them, and there is no text.
pub deliver_decode-eight_bit :
    (out : SmsDeliver) (smsc semi stamp ud : Bytes) (first count toa pid dcs udl out_capacity : ℕ)
    {hex : Bytes} (sender timestamp : Bytes)
    → IsOctets
        (length smsc ∷ smsc ++ message first count toa semi (behind_address pid dcs stamp udl ud))
    → length
        (length smsc ∷ smsc ++ message first count toa semi (behind_address pid dcs stamp udl ud))
      ≤ max_pdu_octets
    → hex_encode
        (length smsc ∷ smsc ++ message first count toa semi (behind_address pid dcs stamp udl ud))
        out_capacity
      ≡ some hex
    → first % 4 ≡ 0
    → length semi ≡ (count + 1) / 2
    → length stamp ≡ 7
    → address_decode (semi ++ behind_address pid dcs stamp udl ud) count toa max_address_length
      ≡ some sender
    → timestamp_decode (stamp ++ udl ∷ ud) timestamp_size ≡ some timestamp
    → ((dcs / 32 ≡ 0) × (dcs / 4 % 4 ≡ 1)) ⊎ ((dcs / 16 ≡ 15) × (dcs / 4 % 2 ≡ 1))
    → deliver_decode out (some hex) ≡ (
      record {
        sender = some sender;
        encoding = eight_bit;
        concat = no_concat;
        service_center_timestamp = some timestamp;
        text = none;
      },
      some unsupported,
    )
deliver_decode-eight_bit out smsc semi stamp ud first count toa pid dcs udl out_capacity sender
      timestamp octets few digits kind size seven a t data' =
    deliver_decode-with_text out smsc semi stamp ud first count toa pid dcs udl out_capacity sender
      timestamp (fail unsupported) eight_bit no_concat octets few digits kind size seven a t
      (decode_user_data-eight_bit first dcs udl ud data')
