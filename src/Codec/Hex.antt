-- ===== src/Codec/Hex.antt =====
-- hex_decode and hex_encode of components/sms_codec/sms_pdu.c, and the results of decoding.
pub mod RoundTrip
use esp32_sms_gateway.Base.{
  ℕ, zero, suc, ◌+◌, ◌-◌, ◌*◌, ◌/◌, ◌%◌, Bool, true, false, not, ◌&&◌, ◌||◌, Option, none, some,
  List, [], ◌∷◌, ◌++◌, length, ltb, leb, within, ◌==◌, if◌then◌else◌, ◌>>=◌, Bytes,
}

-- sms_pdu_decode_result_t, but for SMS_PDU_DECODE_OK
pub data PduError : Type 0 where
  invalid_hex truncated unsupported invalid text_too_long : PduError

pub data Decoded (A : Type 0) : Type 0 where
  ok : A → Decoded A
  fail : PduError → Decoded A

-- hex_value; `none` is -1.
unfoldable pub hex_value : ℕ → Option ℕ
hex_value ch =
    if within b'0' b'9' ch
    then some (ch - b'0')
    else if within b'a' b'f' ch
    then some (ch - b'a' + 10)
    else if within b'A' b'F' ch
    then some (ch - b'A' + 10)
    else none

-- The loop of hex_decode; the length is even.
unfoldable pub hex_pairs : Bytes → Option Bytes
unfolding hex_value
hex_pairs [] = some []
hex_pairs (h ∷ []) = none
hex_pairs (h ∷ l ∷ hex) = do
  high ← hex_value h
  low ← hex_value l
  rest ← hex_pairs hex
  some ((high * 16 + low) ∷ rest)

unfoldable pub valid_hex : Option Bytes → Decoded Bytes
valid_hex none = fail invalid_hex
valid_hex (some out) = ok out

-- hex_decode
unfoldable pub hex_decode : Option Bytes → ℕ → Decoded Bytes
unfolding hex_pairs valid_hex
hex_decode none capacity = fail invalid
hex_decode (some hex) capacity =
    if length hex % 2 == 1
    then fail invalid_hex
    else if ltb capacity (length hex / 2)
    then fail truncated
    else valid_hex (hex_pairs hex)

-- "0123456789ABCDEF"[digit]
unfoldable pub hex_digit : ℕ → ℕ
hex_digit digit = if ltb digit 10 then b'0' + digit else b'A' + (digit - 10)

unfoldable pub hex_digits : Bytes → Bytes
unfolding hex_digit
hex_digits [] = []
hex_digits (b ∷ ds) = hex_digit (b / 16) ∷ hex_digit (b % 16) ∷ hex_digits ds

-- hex_encode
unfoldable pub hex_encode : Bytes → ℕ → Option Bytes
unfolding hex_digits
hex_encode ds out_capacity =
    if ltb out_capacity (length ds * 2 + 1) then none else some (hex_digits ds)
