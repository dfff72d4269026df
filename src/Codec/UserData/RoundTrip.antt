-- ===== src/Codec/UserData/RoundTrip.antt =====
-- User data that was packed is read as it was.
use esp32_sms_gateway.Base.{
  ℕ, zero, suc, ◌+◌, ◌-◌, ◌*◌, ◌/◌, ◌≤◌, ◌<◌, ◌≡◌, refl, sym, ap, ◌∙◌, true, false, ◌||◌, some, [],
  ◌∷◌, length, get_or, take, ltb, ◌==◌, Bytes, arith,
}
use esp32_sms_gateway.Codec.Gsm7.{gsm7_decode}
use esp32_sms_gateway.Codec.Hex.{ok}
use esp32_sms_gateway.Codec.Septets.{header_septets, udh_septets}
use esp32_sms_gateway.Codec.Septets.RoundTrip.{IsPacked}
use esp32_sms_gateway.Codec.Header.{concat_header, no_concat}
use esp32_sms_gateway.Codec.Header.RoundTrip.{part, parse_concat_udh-concat_header}
use esp32_sms_gateway.Codec.UserData.{read_udh, decode_gsm7}

pub length-concat_header :
    (reference total sequence : ℕ)
    → (0 < length (concat_header reference total sequence))
      × (length (concat_header reference total sequence) ≤ 7)
unfolding concat_header
length-concat_header reference total sequence = ground arith

concat_header_size :
    (reference total sequence : ℕ)
    → get_or (concat_header reference total sequence) 0 0 + 1
      ≡ length (concat_header reference total sequence)
unfolding concat_header
concat_header_size reference total sequence = ground arith

get_or-take : (n : ℕ) (s : Bytes) → 0 < n → get_or (take n s) 0 0 ≡ get_or s 0 0
get_or-take zero s h = absurd (omega arith)
get_or-take (suc n) [] h = refl
get_or-take (suc n) (x ∷ s) h = refl

-- Behind a header for a part, the part and the header's length are read.
pub read_udh-concat_header :
    (reference total sequence : ℕ) (ud : Bytes) (size : ℕ)
    → 0 < sequence
    → sequence ≤ total
    → take (length (concat_header reference total sequence)) ud
      ≡ concat_header reference total sequence
    → length (concat_header reference total sequence) ≤ size
    → read_udh true ud size
      ≡ (part reference total sequence, ok (length (concat_header reference total sequence)))
unfolding read_udh
read_udh-concat_header reference total sequence ud size first last front fits =
    let udh = concat_header reference total sequence in
    let (some_header, small) = length-concat_header reference total sequence in
    let header_bytes : get_or ud 0 0 + 1 ≡ length udh =
      ap (λ (t : ℕ). t + 1)
        (sym (get_or-take (length udh) ud some_header) ∙ ap (λ t. get_or t 0 0) front)
      ∙ concat_header_size reference total sequence in
    let (parsed, unshifted) = parse_concat_udh-concat_header reference total sequence first last in
    let open' : (size == 0 || ltb size (length udh)) ≡ false = ground arith in
    rw (header_bytes, open', front, parsed, unshifted) refl

pub take-all : (n : ℕ) (s : Bytes) → n ≡ length s → take n s ≡ s
take-all zero [] h = refl
take-all zero (x ∷ s) h = absurd (omega arith)
take-all (suc n) [] h = refl
take-all (suc n) (x ∷ s) h = ap (λ t. x ∷ t) (take-all n s (omega arith))

-- The user data of a segment of the default alphabet, without a header.
pub decode_gsm7-single :
    (septets text packed : Bytes) (capacity udl : ℕ)
    → IsPacked septets [] packed udl
    → udl ≤ 160
    → gsm7_decode septets capacity ≡ some text
    → decode_gsm7 false udl packed capacity ≡ (no_concat, ok text)
unfolding decode_gsm7 read_udh
decode_gsm7-single septets text packed capacity udl (unpacked, front, count, size, octets) few
      decoded =
    let all_of_it = take-all ((udl * 7 + 7) / 8) packed (sym size) in
    let open' : (ltb (length packed) ((udl * 7 + 7) / 8) || ltb 160 udl) ≡ false = ground arith in
    let body : udl - 0 ≡ length septets = omega (arith, count) in
    let positive : ltb udl 0 ≡ false = ground arith in
    rw (open', all_of_it, positive, body, unpacked, decoded) refl

header_fits :
    (bytes septet_count udl : ℕ)
    → udl ≡ header_septets bytes + septet_count
    → bytes ≤ (udl * 7 + 7) / 8
unfolding header_septets
header_fits bytes septet_count udl e = omega (arith, e)

-- The same behind a header for a part.
pub decode_gsm7-part :
    (septets text packed : Bytes) (reference total sequence capacity udl : ℕ)
    → 0 < sequence
    → sequence ≤ total
    → IsPacked septets (concat_header reference total sequence) packed udl
    → udl ≤ 160
    → gsm7_decode septets capacity ≡ some text
    → decode_gsm7 true udl packed capacity ≡ (part reference total sequence, ok text)
unfolding decode_gsm7
decode_gsm7-part septets text packed reference total sequence capacity udl first last
      (unpacked, front, count, size, octets) few decoded =
    let udh = concat_header reference total sequence in
    let (some_header, small) = length-concat_header reference total sequence in
    let hseptets : udh_septets udh ≡ header_septets (length udh) = ground arith in
    let fits : length udh ≤ (udl * 7 + 7) / 8 =
      header_fits (length udh) (length septets) udl
        (count ∙ ap (λ (t : ℕ). t + length septets) hseptets) in
    let read =
      read_udh-concat_header reference total sequence packed ((udl * 7 + 7) / 8) first last front
        fits in
    let all_of_it = take-all ((udl * 7 + 7) / 8) packed (sym size) in
    let open' : (ltb (length packed) ((udl * 7 + 7) / 8) || ltb 160 udl) ≡ false = ground arith in
    let room : ltb udl (header_septets (length udh)) ≡ false = ground arith in
    let body : udl - header_septets (length udh) ≡ length septets =
      omega (arith, count, hseptets) in
    rw (open', read, room, all_of_it, body, rw hseptets at unpacked, decoded) refl
