-- ===== src/Codec/Submit/Preflight.antt =====
-- sms_submit_encode does what sms_submit_preflight says.
use esp32_sms_gateway.Base.{
  ℕ, zero, suc, ◌+◌, ◌≤◌, ◌<◌, ◌≡◌, refl, ap, subst, ◌∙◌, Bool, true, false, ◌||◌, Option, none,
  some, List, [], ◌∷◌, length, ltb, leb, ◌==◌, if◌then◌else◌, >>=-eq-some, Bytes, All, arith,
  Bool-cases, inl, inr,
}
use esp32_sms_gateway.Codec.Types.{Encoding, gsm7, ucs2, eight_bit, unknown}
use esp32_sms_gateway.Codec.Gsm7.{gsm7_septet_count}
use esp32_sms_gateway.Codec.Gsm7.Count.{gsm7_encode-gsm7_septet_count}
use esp32_sms_gateway.Codec.Septets.{header_septets}
use esp32_sms_gateway.Codec.Address.{address_validate}
use esp32_sms_gateway.Codec.Header.{concat_header}
use esp32_sms_gateway.Codec.Segments.{max_segments, split_gsm7, split_ucs2, utf8_to_ucs2}
use esp32_sms_gateway.Codec.Segments.Sizes.{split_gsm7-AreSmall, split_ucs2-AreSmall}
use esp32_sms_gateway.Codec.Submit.{
  SubmitSegment, single_part, build_parts, units_octets, all_units_octets, septets_per_segment,
  units_per_segment, encode_gsm7, encode_ucs2, encode_by_alphabet, submit_encode, preflight_gsm7,
  preflight_ucs2, preflight_by_alphabet, submit_preflight, max_gsm7_septets, max_ucs2_units,
}
use esp32_sms_gateway.Codec.Submit.Units.{length-units_octets}
use esp32_sms_gateway.Codec.Submit.Total.{FitsSegment, build_submit_pdu_room}

-- Segments of an encoding, numbered from `i + 1` on out of `parts`.
abbrev pub IsNumbered : Encoding → ℕ → ℕ → List SubmitSegment → Type 0
IsNumbered encoding parts i [] = Unit
IsNumbered encoding parts i (s ∷ segments) =
    (s.encoding ≡ encoding)
    × (s.segment_number ≡ i + 1)
    × (s.segment_count ≡ parts)
    × IsNumbered encoding parts (i + 1) segments

-- A result of `count` numbered segments.
abbrev pub Encodes : Encoding → ℕ → Option (List SubmitSegment) → Type 0
Encodes encoding count result =
    (segments : List SubmitSegment) × (result ≡ some segments)
    × (length segments ≡ count)
    × IsNumbered encoding count 0 segments

FitsSegment-concat_header :
    (encoding : Encoding) (reference total sequence : ℕ) (payload : Bytes)
    → FitsSegment encoding (concat_header reference 1 1) payload
    → FitsSegment encoding (concat_header reference total sequence) payload
unfolding FitsSegment concat_header
FitsSegment-concat_header gsm7 reference total sequence payload h = ground arith
FitsSegment-concat_header ucs2 reference total sequence payload h = ground arith
FitsSegment-concat_header eight_bit reference total sequence payload h = h
FitsSegment-concat_header unknown reference total sequence payload h = h

-- What sms_submit_preflight makes of the parts.
abbrev preflight_parts : Encoding → List Bytes → Option (Encoding × ℕ)
preflight_parts encoding payloads =
    if length payloads == 0 || ltb max_segments (length payloads)
    then none
    else some (encoding, length payloads)

module _ (recipient : Bytes) {digits : Bytes} {international : Bool}
    (valid : address_validate (some recipient) ≡ some (digits, international)) (encoding : Encoding)
    (report : Bool) where
  build_parts_room :
      (reference parts i : ℕ) (payloads : List Bytes)
      → All (FitsSegment encoding (concat_header reference 1 1)) payloads
      → (segments : List SubmitSegment) × (build_parts recipient encoding report reference parts i
            payloads
          ≡ some segments)
        × (length segments ≡ length payloads)
        × IsNumbered encoding parts i segments
  unfolding build_parts
  build_parts_room reference parts i [] h = ([], refl, refl, tt)
  build_parts_room reference parts i (payload ∷ payloads) h =
      let (tpdu_length, hex, built) =
        build_submit_pdu_room recipient encoding report (concat_header reference parts (i + 1))
          payload valid (FitsSegment-concat_header encoding reference parts (i + 1) payload h.0) in
      let (segments, later, count, numbered) =
        build_parts_room reference parts (i + 1) payloads h.1 in
      rw (built, later) (_, refl, ap suc count, (refl, refl, refl, numbered))

  single_part_room :
      (payload : Bytes)
      → FitsSegment encoding [] payload
      → Encodes encoding 1 (single_part recipient encoding report payload)
  unfolding single_part
  single_part_room payload h =
      let (tpdu_length, hex, built) =
        build_submit_pdu_room recipient encoding report [] payload valid h in
      rw built (_, refl, refl, (refl, refl, refl, tt))

  -- The check that both functions make of the parts, and the segments that then come.
  parts_room :
      (reference capacity count : ℕ) {said : Encoding} (payloads : List Bytes)
      → preflight_parts encoding payloads ≡ some (said, count)
      → count ≤ capacity
      → ((ltb capacity (length payloads) || ltb 255 (length payloads)) ≡ false)
        × ((length payloads == 0) ≡ false)
        × (encoding ≡ said)
        × (length payloads ≡ count)
  parts_room reference capacity count {said} payloads h room =
      elim (Bool-cases (length payloads == 0 || ltb max_segments (length payloads))) [
        | inl bad ↦ cc (rw bad at h)
        | inr good ↦
            let same : encoding ≡ said = cc (rw good at h) in
            let size : length payloads ≡ count = cc (rw good at h) in
            (ground arith, ground arith, same, size)
      ]

-- Parts that leave room for the header of a part fit their segments.
septets-FitsSegment :
    (reference : ℕ) (payloads : List Bytes)
    → All (λ s. length s ≤ septets_per_segment reference) payloads
    → All (FitsSegment gsm7 (concat_header reference 1 1)) payloads
unfolding FitsSegment septets_per_segment concat_header header_septets
septets-FitsSegment reference [] h = tt
septets-FitsSegment reference (payload ∷ payloads) h =
    (ground arith, septets-FitsSegment reference payloads h.1)

units-FitsSegment :
    (reference : ℕ) (payloads : List Bytes)
    → All (λ s. length s ≤ units_per_segment reference) payloads
    → All (FitsSegment ucs2 (concat_header reference 1 1)) (all_units_octets payloads)
      × (length (all_units_octets payloads) ≡ length payloads)
unfolding FitsSegment units_per_segment concat_header all_units_octets
units-FitsSegment reference [] h = (tt, refl)
units-FitsSegment reference (payload ∷ payloads) h =
    let (later, count) = units-FitsSegment reference payloads h.1 in
    ((ground (arith, length-units_octets payload, h.0), later), ap suc count)

module _ (recipient text : Bytes) {digits : Bytes} {international : Bool}
    (valid : address_validate (some recipient) ≡ some (digits, international)) (report : Bool)
    (reference capacity count : ℕ) (room : count ≤ capacity) {said : Encoding} where
  encode_gsm7_room :
      (gsm_count : ℕ)
      → gsm7_septet_count (some text) ≡ some gsm_count
      → preflight_gsm7 text reference gsm_count ≡ some (said, count)
      → Encodes said count (encode_gsm7 recipient text report reference capacity gsm_count)
  unfolding encode_gsm7 preflight_gsm7 FitsSegment
  encode_gsm7_room gsm_count counted h = elim (Bool-cases (ltb max_gsm7_septets gsm_count)) [
    | inl long ↦ cc (rw long at h)
    | inr fits ↦
        let (septets, encoded, size) =
          gsm7_encode-gsm7_septet_count text max_gsm7_septets counted (ground arith) in
        elim (Bool-cases (leb gsm_count 160)) [
          | inl short ↦
              let same : gsm7 ≡ said = cc (rw (fits, short) at h) in
              let one : 1 ≡ count = cc (rw (fits, short) at h) in
              let few : leb (length septets) 160 ≡ true = ground arith in
              subst
                (λ e.
                  Encodes e count (encode_gsm7 recipient text report reference capacity gsm_count))
                same
                (subst
                  (λ n.
                    Encodes gsm7 n (encode_gsm7 recipient text report reference capacity gsm_count))
                  one
                  (rw (fits, encoded, few)
                    (single_part_room recipient valid gsm7 report septets (ground arith))))
          | inr long ↦
              let many : leb (length septets) 160 ≡ false = ground arith in
              let (payloads, split, checked) =
                >>=-eq-some (split_gsm7 septets (septets_per_segment reference)) _
                  (rw (fits, long, encoded) at h) in
              let (open', some_parts, same, parts) =
                parts_room recipient valid gsm7 report reference capacity count payloads checked
                  room in
              let (sizes, few) =
                split_gsm7-AreSmall septets (septets_per_segment reference) split in
              let (segments, built, size', numbered) =
                build_parts_room recipient valid gsm7 report reference (length payloads) 0 payloads
                  (septets-FitsSegment reference payloads sizes) in
              rw (fits, encoded, many, split, open')
                (
                  segments,
                  built,
                  size' ∙ parts,
                  subst (λ e. IsNumbered e count 0 segments) same
                      (subst (λ n. IsNumbered gsm7 n 0 segments) parts numbered),
                )
        ]
  ]

  encode_ucs2_room :
      preflight_ucs2 text reference ≡ some (said, count)
      → Encodes said count (encode_ucs2 recipient text report reference capacity)
  unfolding encode_ucs2 preflight_ucs2 FitsSegment
  encode_ucs2_room h =
      let (units, encoded, h1) = >>=-eq-some (utf8_to_ucs2 text max_ucs2_units) _ h in
      elim (Bool-cases (leb (length units) 70)) [
        | inl short ↦
            let same : ucs2 ≡ said = cc (rw short at h1) in
            let one : 1 ≡ count = cc (rw short at h1) in
            subst (λ e. Encodes e count (encode_ucs2 recipient text report reference capacity)) same
              (subst (λ n. Encodes ucs2 n (encode_ucs2 recipient text report reference capacity))
                one
                (rw (encoded, short)
                  (single_part_room recipient valid ucs2 report (units_octets units)
                    (ground (arith, length-units_octets units)))))
        | inr long ↦
            let (payloads, split, checked) =
              >>=-eq-some (split_ucs2 units (units_per_segment reference)) _ (rw long at h1) in
            let (open', some_parts, same, parts) =
              parts_room recipient valid ucs2 report reference capacity count payloads checked
                room in
            let (sizes, few) = split_ucs2-AreSmall units (units_per_segment reference) split in
            let (fit, as_many) = units-FitsSegment reference payloads sizes in
            let (segments, built, size', numbered) =
              build_parts_room recipient valid ucs2 report reference (length payloads) 0
                (all_units_octets payloads) fit in
            rw (encoded, long, split, some_parts, open')
              (
                segments,
                built,
                size' ∙ as_many ∙ parts,
                subst (λ e. IsNumbered e count 0 segments) same
                    (subst (λ n. IsNumbered ucs2 n 0 segments) parts numbered),
              )
      ]

  encode_by_alphabet_room :
      (o : Option ℕ)
      → gsm7_septet_count (some text) ≡ o
      → preflight_by_alphabet text reference o ≡ some (said, count)
      → Encodes said count (encode_by_alphabet recipient text report reference capacity o)
  unfolding encode_by_alphabet preflight_by_alphabet
  encode_by_alphabet_room none e h = encode_ucs2_room h
  encode_by_alphabet_room (some gsm_count) e h = encode_gsm7_room gsm_count e h

-- A message that sms_submit_preflight accepts is encoded whenever there is room for the count of segments
-- that it gives: into that many segments, all of the encoding that it gives, and numbered from 1 up.
pub submit_encode-submit_preflight :
    (recipient text : Option Bytes) (report : Bool) (reference capacity count : ℕ)
    (encoding : Encoding)
    → 0 < capacity
    → count ≤ capacity
    → submit_preflight recipient text reference ≡ some (encoding, count)
    → Encodes encoding count (submit_encode recipient text report reference capacity)
unfolding submit_encode submit_preflight
submit_encode-submit_preflight none text report reference capacity count encoding some_room room h =
    cc
submit_encode-submit_preflight (some recipient) none report reference capacity count encoding
      some_room room h =
    cc
submit_encode-submit_preflight (some recipient) (some text) report reference zero count encoding
      some_room room h =
    absurd (omega arith)
submit_encode-submit_preflight (some recipient) (some text) report reference (suc capacity) count
      encoding some_room room h =
    let ((digits, international), valid, h1) =
      >>=-eq-some (address_validate (some recipient)) _ h in
    rw valid (
      encode_by_alphabet_room recipient text valid report reference (suc capacity) count room
        (gsm7_septet_count (some text)) refl h1)
