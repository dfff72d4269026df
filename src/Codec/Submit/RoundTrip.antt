-- ===== src/Codec/Submit/RoundTrip.antt =====
-- The octets of a segment, read again.
use esp32_sms_gateway.Base.{
  ℕ, suc, ◌+◌, ◌*◌, ◌/◌, ◌%◌, ◌≤◌, ◌<◌, ◌≡◌, ap, subst, ◌∙◌, Bool, true, false, ◌||◌, some, [], ◌∷◌,
  ◌++◌, append_assoc, length, ltb, ◌==◌, >>=-eq-some, Bytes, arith, Bool-cases, inl, inr,
}
use esp32_sms_gateway.Codec.Types.{gsm7, ConcatInfo}
use esp32_sms_gateway.Codec.Gsm7.{gsm7_decode}
use esp32_sms_gateway.Codec.Hex.{Decoded, ok}
use esp32_sms_gateway.Codec.Septets.{udh_septets, pack_septets}
use esp32_sms_gateway.Codec.Septets.RoundTrip.{IsSeptets, unpack_septets-pack_septets}
use esp32_sms_gateway.Codec.Address.{
  max_pdu_octets, buffer_append, buffer_put, address_encode, address_decode,
}
use esp32_sms_gateway.Codec.Address.RoundTrip.{buffer_put-eq-some, address_decode-address_encode}
use esp32_sms_gateway.Codec.Header.{concat_header}
use esp32_sms_gateway.Codec.Header.RoundTrip.{part, concat_header-IsOctets}
use esp32_sms_gateway.Codec.UserData.{decode_user_data, dcs_encoding}
use esp32_sms_gateway.Codec.UserData.RoundTrip.{decode_gsm7-part, length-concat_header}
use esp32_sms_gateway.Codec.Submit.{first_octet, put_user_data, submit_octets}

buffer_append-eq-some :
    (buffer octets : Bytes) {out : Bytes}
    → buffer_append buffer octets ≡ some out
    → out ≡ buffer ++ octets
unfolding buffer_append
buffer_append-eq-some buffer octets h =
    elim (Bool-cases (ltb max_pdu_octets (length buffer + length octets))) [
      | inl full ↦ cc (rw full at h)
      | inr room ↦ cc (rw room at h)
    ]

-- The user data of the default alphabet that is put behind the protocol identifier.
put_user_data-gsm7 :
    (buffer udh septets : Bytes) {out : Bytes}
    → put_user_data buffer gsm7 udh septets ≡ some out
    → (packed : Bytes) × (udl : ℕ) × (pack_septets septets udh 140 ≡ some (packed, udl))
      × (out ≡ buffer ++ 0 ∷ udl ∷ packed)
unfolding put_user_data
put_user_data-gsm7 buffer udh septets {out} h =
    let (pdu1, put1, h1) = >>=-eq-some (buffer_put buffer 0) _ h in
    let ((packed, udl), pack, h2) = >>=-eq-some (pack_septets septets udh 140) _ h1 in
    let (pdu2, put2, h3) = >>=-eq-some (buffer_put pdu1 udl) _ h2 in
    let e1 = buffer_put-eq-some buffer 0 put1 in
    let e2 = buffer_put-eq-some pdu1 udl put2 in
    (
      packed,
      udl,
      pack,
      buffer_append-eq-some pdu2 packed h3
          ∙ ap (λ b. b ++ packed) (e2 ∙ ap (λ b. b ++ udl ∷ []) e1)
          ∙ ap (λ b. b ++ packed) (append_assoc buffer (0 ∷ []) (udl ∷ []))
          ∙ append_assoc buffer (0 ∷ udl ∷ []) packed,
    )

-- The octets of a segment from its first one on: the address is behind the message reference, the user data
-- behind the protocol identifier.
submit_octets-gsm7 :
    (recipient : Bytes) (report : Bool) (udh septets : Bytes) {out : Bytes}
    → submit_octets recipient gsm7 report udh septets ≡ some out
    → (pdu4 packed : Bytes) × (udl : ℕ) × (address_encode
          (0 ∷ first_octet report udh ∷ 0 ∷ [])
          (some recipient)
        ≡ some pdu4)
      × (pack_septets septets udh 140 ≡ some (packed, udl))
      × (out ≡ pdu4 ++ 0 ∷ 0 ∷ udl ∷ packed)
unfolding submit_octets
submit_octets-gsm7 recipient report udh septets {out} h =
    let first = first_octet report udh in
    let (pdu1, put1, h1) = >>=-eq-some (buffer_put [] 0) _ h in
    let (pdu2, put2, h2) = >>=-eq-some (buffer_put pdu1 first) _ h1 in
    let (pdu3, put3, h3) = >>=-eq-some (buffer_put pdu2 0) _ h2 in
    let (pdu4, put4, h4) = >>=-eq-some (address_encode pdu3 (some recipient)) _ h3 in
    let (pdu5, put5, h5) = >>=-eq-some (buffer_put pdu4 0) _ h4 in
    let e3 : pdu3 ≡ 0 ∷ first ∷ 0 ∷ [] =
      buffer_put-eq-some pdu2 0 put3
      ∙ ap (λ b. b ++ 0 ∷ [])
          (buffer_put-eq-some pdu1 first put2
            ∙ ap (λ b. b ++ first ∷ []) (buffer_put-eq-some [] 0 put1)) in
    let (packed, udl, pack, e) = put_user_data-gsm7 pdu5 udh septets h5 in
    (
      pdu4,
      packed,
      udl,
      subst (λ b. address_encode b (some recipient) ≡ some pdu4) e3 put4,
      pack,
      e
          ∙ ap (λ b. b ++ 0 ∷ udl ∷ packed) (buffer_put-eq-some pdu4 0 put5)
          ∙ append_assoc pdu4 (0 ∷ []) (0 ∷ udl ∷ packed),
    )

packed-few :
    (septets udh : Bytes) {packed : Bytes} {udl : ℕ}
    → pack_septets septets udh 140 ≡ some (packed, udl)
    → udl ≤ 160
unfolding pack_septets
packed-few septets udh {packed} {udl} h =
    let total = udh_septets udh + length septets in
    elim (Bool-cases (ltb 255 total || ltb 140 ((total * 7 + 7) / 8))) [
      | inl refused ↦ cc (rw refused at h)
      | inr accepted ↦ let size : total ≡ udl = cc (rw accepted at h) in ground arith
    ]

first_octet-has_udh :
    (report : Bool) (udh : Bytes) → 0 < length udh → (first_octet report udh / 64 % 2 == 1) ≡ true
unfolding first_octet
first_octet-has_udh true udh h = ground arith
first_octet-has_udh false udh h = ground arith

-- What a segment of the default alphabet says to a reader, for a part of a message.
abbrev pub ReadsAs : Bytes → Bytes → ConcatInfo → Bytes → ℕ → Type 0
ReadsAs pdu recipient concat text capacity =
    (first count toa udl : ℕ) × (semi ud : Bytes) × (pdu
      ≡ 0 ∷ first ∷ 0 ∷ count ∷ toa ∷ semi ++ 0 ∷ 0 ∷ udl ∷ ud)
    × (length semi ≡ (count + 1) / 2)
    × (address_decode (semi ++ 0 ∷ 0 ∷ udl ∷ ud) count toa 24 ≡ some recipient)
    × (decode_user_data first 0 udl ud capacity ≡ (gsm7, concat, ok text))

-- The octets that build_submit_pdu makes of a part of a message in the default alphabet carry the address
-- and the user data where the format has them, and the decoders of the same file read the recipient, the
-- text that the septets stand for, and the part, for each number from 1 up to the total.
pub decode_user_data-submit_octets :
    (recipient septets text : Bytes) (report : Bool) (reference total sequence capacity : ℕ)
    {pdu : Bytes}
    → reference < 65536
    → 0 < sequence
    → sequence ≤ total
    → total < 256
    → length recipient < 24
    → IsSeptets septets
    → gsm7_decode septets (suc capacity) ≡ some text
    → submit_octets recipient gsm7 report (concat_header reference total sequence) septets
      ≡ some pdu
    → ReadsAs pdu recipient (part reference total sequence) text (suc capacity)
unfolding decode_user_data dcs_encoding
decode_user_data-submit_octets recipient septets text report reference total sequence capacity {pdu}
      r first last t short fit decoded h =
    let udh = concat_header reference total sequence in
    let first' = first_octet report udh in
    let (pdu4, packed, udl, put, pack, e) = submit_octets-gsm7 recipient report udh septets h in
    let (count, toa, semi, e4, size, address) =
      address_decode-address_encode (0 ∷ first' ∷ 0 ∷ []) recipient (0 ∷ 0 ∷ udl ∷ packed) 24 short
        put in
    let is_packed =
      unpack_septets-pack_septets septets udh 140 fit
        (concat_header-IsOctets reference total sequence r t (omega arith)) pack in
    let (some_header, small) = length-concat_header reference total sequence in
    let has_udh = first_octet-has_udh report udh some_header in
    (
      first',
      count,
      toa,
      udl,
      semi,
      packed,
      e ∙ ap (λ b. b ++ 0 ∷ 0 ∷ udl ∷ packed) e4,
      size,
      address,
      rw has_udh (
          ap (λ (r : ConcatInfo × Decoded Bytes). (gsm7, r.0, r.1))
            (decode_gsm7-part septets text packed reference total sequence (suc capacity) udl first
              last is_packed (packed-few septets udh pack) decoded)),
    )
