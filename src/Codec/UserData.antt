-- ===== src/Codec/UserData.antt =====
-- decode_user_data and dcs_encoding of components/sms_codec/sms_pdu.c: the encoding and the part are
-- as they are left on every branch, failures included. The text is that of a success; what a failure
-- has written into its buffer is not modelled.
pub mod RoundTrip
pub mod Text
use esp32_sms_gateway.Base.{
  ℕ, zero, suc, ◌+◌, ◌-◌, ◌*◌, ◌/◌, ◌%◌, Bool, true, false, not, ◌&&◌, ◌||◌, Option, none, some,
  List, [], ◌∷◌, ◌++◌, length, get_or, take, drop, ltb, leb, within, ◌==◌, if◌then◌else◌, ◌>>=◌,
  Bytes,
}
use esp32_sms_gateway.Codec.Types.{Encoding, gsm7, ucs2, eight_bit, unknown, ConcatInfo}
use esp32_sms_gateway.Codec.Utf8.{utf8_append}
use esp32_sms_gateway.Codec.Gsm7.{gsm7_decode}
use esp32_sms_gateway.Codec.Hex.{
  PduError, invalid_hex, truncated, unsupported, invalid, text_too_long, Decoded, ok, fail,
  hex_decode,
}
use esp32_sms_gateway.Codec.Septets.{header_septets, unpack_septets}
use esp32_sms_gateway.Codec.Address.{max_pdu_octets, address_decode}
use esp32_sms_gateway.Codec.Header.{no_concat, parse_concat_udh, udh_has_national_language_shift}

-- `if (!...) return error;` on the way to a result.
abbrev pub or_fail : {A B : Type 0} → PduError → Option A → (A → Decoded B) → Decoded B
or_fail error none next = fail error
or_fail error (some a) next = next a

abbrev pub decoded_then : {A B : Type 0} → Decoded A → (A → Decoded B) → Decoded B
decoded_then (fail error) next = fail error
decoded_then (ok a) next = next a

-- dcs_encoding
unfoldable pub dcs_encoding : ℕ → Encoding
dcs_encoding dcs =
    let alphabet = dcs / 4 % 4 in
    if dcs / 64 == 0
    then (if dcs / 32 % 2 == 1
        then unknown
        else if alphabet == 0
        then gsm7
        else if alphabet == 1
        then eight_bit
        else if alphabet == 2
        then ucs2
        else unknown)
    else if dcs / 16 == 15
    then (if dcs / 4 % 2 == 1 then eight_bit else gsm7)
    else unknown

-- The header of user data of `size` octets: what it leaves in `concat`, and its length.
unfoldable pub read_udh : Bool → Bytes → ℕ → ConcatInfo × Decoded ℕ
read_udh false ud size = (no_concat, ok 0)
read_udh true ud size =
    let header_bytes = get_or ud 0 0 + 1 in
    let (concat, parsed) = parse_concat_udh (take header_bytes ud) in
    if size == 0 || ltb size header_bytes
    then (no_concat, fail invalid)
    else if not parsed
    then (concat, fail invalid)
    else if udh_has_national_language_shift (take header_bytes ud)
    then (concat, fail unsupported)
    else (concat, ok header_bytes)

-- The loop of decode_user_data on UCS-2 octets; behind a high surrogate it looks for its low one.
unfoldable pub ucs2_from : Option ℕ → ℕ → Bytes → Bytes → Decoded Bytes
ucs2_from none capacity [] text = ok text
ucs2_from none capacity (h ∷ []) text = ok text
ucs2_from (some high) capacity [] text = fail invalid
ucs2_from (some high) capacity (h ∷ []) text = fail invalid
ucs2_from none capacity (h ∷ l ∷ ud) text =
    let cp = h * 256 + l in
    let paired = ucs2_from (some cp) capacity ud text in
    if within 0xD800 0xDBFF cp
    then paired
    else if within 0xDC00 0xDFFF cp
    then fail invalid
    else or_fail text_too_long (utf8_append cp capacity text)
        (λ text'. ucs2_from none capacity ud text')
ucs2_from (some high) capacity (h ∷ l ∷ ud) text =
    let low = h * 256 + l in
    if not (within 0xDC00 0xDFFF low)
    then fail invalid
    else or_fail text_too_long
        (utf8_append (0x10000 + (high - 0xD800) * 1024 + (low - 0xDC00)) capacity text)
        (λ text'. ucs2_from none capacity ud text')

-- decode_user_data with the default alphabet.
unfoldable pub decode_gsm7 : Bool → ℕ → Bytes → ℕ → ConcatInfo × Decoded Bytes
unfolding read_udh
decode_gsm7 has_udh udl ud text_capacity =
    let packed_bytes = (udl * 7 + 7) / 8 in
    let (concat, header) = read_udh has_udh ud packed_bytes in
    if ltb (length ud) packed_bytes || ltb 160 udl then (no_concat, fail truncated) else (
      concat,
      decoded_then header (λ header_bytes.
          let hseptets = if has_udh then header_septets header_bytes else 0 in
          if ltb udl hseptets
          then fail invalid
          else or_fail truncated
              (unpack_septets (take packed_bytes ud) (hseptets * 7) (udl - hseptets))
              (λ septets. or_fail text_too_long (gsm7_decode septets text_capacity) ok)),
    )

-- decode_user_data with UCS-2.
unfoldable pub decode_ucs2 : Bool → ℕ → Bytes → ℕ → ConcatInfo × Decoded Bytes
unfolding read_udh ucs2_from
decode_ucs2 has_udh udl ud text_capacity =
    let (concat, header) = read_udh has_udh ud udl in
    if ltb (length ud) udl || ltb 140 udl then (no_concat, fail truncated) else (
      concat,
      decoded_then header (λ pos.
          if not ((udl - pos) % 2 == 0)
          then fail invalid
          else ucs2_from none text_capacity (take (udl - pos) (drop pos ud)) []),
    )

-- decode_user_data; `ud` is what is available. It leaves its outputs as they are if the text has no
-- room at all: its caller has set them to zero, which is gsm7 and no part.
unfoldable pub decode_user_data : ℕ → ℕ → ℕ → Bytes → ℕ → Encoding × ConcatInfo × Decoded Bytes
unfolding dcs_encoding decode_gsm7 decode_ucs2
decode_user_data first_octet dcs udl ud zero = (gsm7, no_concat, fail invalid)
decode_user_data first_octet dcs udl ud (suc text_capacity) =
    let decoded = by_encoding (dcs_encoding dcs) in (dcs_encoding dcs, decoded.0, decoded.1)
  where
    by_encoding : Encoding → ConcatInfo × Decoded Bytes
    by_encoding gsm7 = decode_gsm7 (first_octet / 64 % 2 == 1) udl ud (suc text_capacity)
    by_encoding ucs2 = decode_ucs2 (first_octet / 64 % 2 == 1) udl ud (suc text_capacity)
    by_encoding eight_bit = (no_concat, fail unsupported)
    by_encoding unknown = (no_concat, fail unsupported)
