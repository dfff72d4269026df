-- ===== src/Tests/Codec.antt =====
-- The text encodings on concrete texts (tests/test_sms_codec.c).
use esp32_sms_gateway.Base.{◌≡◌, ◌<◌, refl, none, some, [], ◌∷◌, ◌++◌, length, Bytes, codes, arith}
use esp32_sms_gateway.Codec.Utf8.{utf8_next, utf8_bytes, utf8_append, utf8_loop, utf8_each}
use esp32_sms_gateway.Codec.Utf8.Canonical.{utf8_next-utf8_bytes, utf8_bytes-utf8_next}
use esp32_sms_gateway.Codec.Utf8.Loop.{utf8_loop_fuel}
use esp32_sms_gateway.Codec.Gsm7.{
  gsm7_basic, gsm7_extension, find_basic, find_extension, gsm7_find, extension_decode, count_step,
  gsm7_septet_count, gsm7_encode, gsm7_decode,
}
use esp32_sms_gateway.Codec.Gsm7.RoundTrip.{gsm7_decode-gsm7_encode}
use esp32_sms_gateway.Codec.Gsm7.Count.{gsm7_encode-gsm7_septet_count}

-- "Hi {" and the euro sign
abbrev text : Bytes
text = codes "Hi {" ++ 0xE2 ∷ 0x82 ∷ 0xAC ∷ []

abbrev septets : Bytes
septets = 0x48 ∷ 0x69 ∷ 0x20 ∷ 0x1B ∷ 0x28 ∷ 0x1B ∷ 0x65 ∷ []

encoded_text : gsm7_encode (some text) 160 ≡ some septets
unfolding gsm7_encode utf8_each utf8_next gsm7_find find_basic find_extension gsm7_basic
    gsm7_extension
encoded_text = refl

counted_text : gsm7_septet_count (some text) ≡ some 7
unfolding gsm7_septet_count utf8_each utf8_next gsm7_find find_basic find_extension gsm7_basic
    gsm7_extension
counted_text = refl

decoded_text : gsm7_decode septets 64 ≡ some text
unfolding gsm7_decode utf8_append utf8_bytes extension_decode gsm7_basic gsm7_extension
decoded_text = refl

-- An emoji is no GSM-7 text.
gsm7_encode_emoji : gsm7_encode (some (0xF0 ∷ 0x9F ∷ 0x98 ∷ 0x80 ∷ [])) 160 ≡ none
unfolding gsm7_encode utf8_each utf8_next gsm7_find find_basic find_extension gsm7_basic
    gsm7_extension
gsm7_encode_emoji = refl

-- A surrogate is written as four bytes, which are not read back: no caller passes one.
utf8_bytes_surrogate : utf8_bytes 0xD800 ≡ some (0xF0 ∷ 0x8D ∷ 0xA0 ∷ 0x80 ∷ [])
unfolding utf8_bytes
utf8_bytes_surrogate = refl

utf8_next_surrogate : utf8_next (0xF0 ∷ 0x8D ∷ 0xA0 ∷ 0x80 ∷ []) ≡ none
unfolding utf8_next
utf8_next_surrogate = refl

gsm7_decode-gsm7_encode_example : gsm7_decode septets 8 ≡ some text
gsm7_decode-gsm7_encode_example =
    gsm7_decode-gsm7_encode text 160 8 (omega arith) (omega arith) encoded_text

gsm7_encode-gsm7_septet_count_run :
    (q : Bytes) × (gsm7_encode (some text) 160 ≡ some q) × (length q ≡ 7)
gsm7_encode-gsm7_septet_count_run =
    gsm7_encode-gsm7_septet_count text 160 counted_text (omega arith)

euro_bytes : utf8_bytes 0x20AC ≡ some (0xE2 ∷ 0x82 ∷ 0xAC ∷ [])
unfolding utf8_bytes
euro_bytes = refl

euro_next : utf8_next (0xE2 ∷ 0x82 ∷ 0xAC ∷ b'!' ∷ []) ≡ some (0x20AC, b'!' ∷ [])
unfolding utf8_next
euro_next = refl

utf8_next-utf8_bytes_run :
    utf8_next ((0xE2 ∷ 0x82 ∷ 0xAC ∷ []) ++ b'!' ∷ []) ≡ some (0x20AC, b'!' ∷ [])
utf8_next-utf8_bytes_run = utf8_next-utf8_bytes 0x20AC (b'!' ∷ []) refl euro_bytes

utf8_bytes-utf8_next_example :
    (out : Bytes) × (utf8_bytes 0x20AC ≡ some out)
    × (0xE2 ∷ 0x82 ∷ 0xAC ∷ b'!' ∷ [] ≡ out ++ b'!' ∷ [])
    × (0 < length out)
utf8_bytes-utf8_next_example =
    utf8_bytes-utf8_next (0xE2 ∷ 0x82 ∷ 0xAC ∷ b'!' ∷ []) (omega arith) euro_next

utf8_loop_fuel_example : utf8_loop count_step 7 text 0 ≡ utf8_loop count_step 100 text 0
utf8_loop_fuel_example = utf8_loop_fuel count_step 7 100 text 0 (omega arith) (omega arith)
