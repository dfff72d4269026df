-- ===== src/Codec/UserData/Text.antt =====
-- A text comes back from its UCS-2 units.
use esp32_sms_gateway.Base.{
  ℕ, zero, suc, ◌+◌, ◌-◌, ◌*◌, ◌/◌, ◌%◌, ◌≤◌, ◌<◌, ◌≡◌, refl, sym, ap, subst, ◌∙◌, true, false,
  ◌&&◌, ◌||◌, none, some, [], ◌∷◌, ◌++◌, append-nil, append_assoc, length, length-append, take, ltb,
  leb, within, ◌==◌, Bytes, arith, IsText, IsChar, All-append_right, Bool-cases, inl, inr,
}
use esp32_sms_gateway.Codec.Types.{ucs2}
use esp32_sms_gateway.Codec.Utf8.{is_surrogate, utf8_append, utf8_loop, utf8_each}
use esp32_sms_gateway.Codec.Utf8.Loop.{utf8_loop-eq-some}
use esp32_sms_gateway.Codec.Utf8.Canonical.{utf8_bytes-utf8_next}
use esp32_sms_gateway.Codec.Gsm7.RoundTrip.{utf8_append_room}
use esp32_sms_gateway.Codec.Hex.{ok}
use esp32_sms_gateway.Codec.Header.{no_concat}
use esp32_sms_gateway.Codec.Segments.{ucs2_units, ucs2_step, utf8_to_ucs2}
use esp32_sms_gateway.Codec.Submit.{units_octets}
use esp32_sms_gateway.Codec.Submit.Units.{length-units_octets, units_octets-append}
use esp32_sms_gateway.Codec.UserData.{
  read_udh, dcs_encoding, ucs2_from, decode_ucs2, decode_user_data,
}
use esp32_sms_gateway.Codec.UserData.RoundTrip.{take-all}

-- A step that goes through appends the units of a code point that is not a surrogate.
ucs2_step-eq-some :
    (capacity : ℕ) (units : Bytes) (cp : ℕ) {q : Bytes}
    → ucs2_step capacity units cp ≡ some q
    → ((leb cp 0xFFFF && is_surrogate cp || ltb 0x10FFFF cp) ≡ false) × (q ≡ units ++ ucs2_units cp)
unfolding ucs2_step
ucs2_step-eq-some capacity units cp {q} h =
    elim (Bool-cases (leb cp 0xFFFF && is_surrogate cp || ltb 0x10FFFF cp)) [
      | inl bad ↦ cc (rw bad at h)
      | inr good ↦ elim (Bool-cases (ltb capacity (length units + length (ucs2_units cp)))) [
        | inl full ↦ cc (rw (good, full) at h)
        | inr room ↦
            let same : units ++ ucs2_units cp ≡ q = cc (rw (good, room) at h) in (good, sym same)
      ]
    ]

-- One round of the decoder on the octets of a code point.
ucs2_from-ucs2_units :
    (capacity cp : ℕ) (rest text : Bytes) {text' : Bytes}
    → (leb cp 0xFFFF && is_surrogate cp || ltb 0x10FFFF cp) ≡ false
    → utf8_append cp capacity text ≡ some text'
    → ucs2_from none capacity (units_octets (ucs2_units cp) ++ rest) text
      ≡ ucs2_from none capacity rest text'
unfolding ucs2_from ucs2_units units_octets
ucs2_from-ucs2_units capacity cp rest text good room = elim (Bool-cases (leb cp 0xFFFF)) [
  | inl one ↦
      let whole : cp / 256 * 256 + cp % 256 ≡ cp = omega arith in
      let high : within 0xD800 0xDBFF cp ≡ false = ground arith in
      let low : within 0xDC00 0xDFFF cp ≡ false = ground arith in
      rw (one, whole, high, low, room) refl
  | inr two ↦
      let high = 0xD800 + (cp - 0x10000) / 1024 in
      let low = 0xDC00 + (cp - 0x10000) % 1024 in
      let whole_high : high / 256 * 256 + high % 256 ≡ high = omega arith in
      let whole_low : low / 256 * 256 + low % 256 ≡ low = omega arith in
      let top : cp ≤ 0x10FFFF = ground arith in
      let bottom : 0xFFFF < cp = ground arith in
      let opens : within 0xD800 0xDBFF high ≡ true = ground arith in
      let closes : within 0xDC00 0xDFFF low ≡ true = ground arith in
      let together : 0x10000 + (high - 0xD800) * 1024 + (low - 0xDC00) ≡ cp = omega arith in
      rw (two, whole_high, opens, whole_low, closes, together, room) refl
]

abbrev ReadsBack : ℕ → Bytes → Bytes → Bytes → Bytes → Type 0
ReadsBack capacity out s done q =
    (units : Bytes) × (q ≡ out ++ units)
    × (ucs2_from none capacity (units_octets units) done ≡ ok (done ++ s))

ucs2_loop-ReadsBack :
    (room capacity fuel : ℕ) (s out done : Bytes) {q : Bytes}
    → IsText s
    → length done + length s < capacity
    → utf8_loop (ucs2_step room) fuel s out ≡ some q
    → ReadsBack capacity out s done q
unfolding utf8_loop ucs2_from
ucs2_loop-ReadsBack room capacity fuel [] out done {q} t fits h =
    ([], ground (arith, append-nil out), unfold units_octets in rw append-nil refl)
ucs2_loop-ReadsBack room capacity zero (c ∷ s) out done t fits h = cc
ucs2_loop-ReadsBack room capacity (suc fuel) (c ∷ s) out done {q} t fits h =
    let (cp, rest, out', read, stepped, looped) =
      utf8_loop-eq-some (ucs2_step room) fuel c s out h in
    let (good, grown) = ucs2_step-eq-some room out cp stepped in
    let (b, bytes, split, more) = utf8_bytes-utf8_next (c ∷ s) t read in
    let (units, same, reads) =
      ucs2_loop-ReadsBack room capacity fuel rest (out ++ ucs2_units cp) (done ++ b)
        (All-append_right IsChar b rest (subst IsText split t))
        (omega (arith, ap length split, length-append b rest, length-append done b))
        (subst (λ o. utf8_loop (ucs2_step room) fuel rest o ≡ some q) grown looped) in
    let appended =
      utf8_append_room cp capacity done bytes
        (omega (arith, ap length split, length-append b rest)) in
    (
      ucs2_units cp ++ units,
      same ∙ append_assoc out (ucs2_units cp) units,
      ap (λ o. ucs2_from none capacity o done) (units_octets-append (ucs2_units cp) units)
          ∙ ucs2_from-ucs2_units capacity cp (units_octets units) done good appended
          ∙ reads
          ∙ ap ok (append_assoc done b rest ∙ ap (λ x. done ++ x) (sym split)),
    )

-- A text that is written in at most 70 UCS-2 units, surrogate pairs included, is read back from their
-- octets by the decoder of user data without a header, given room for the text and its NUL.
pub decode_user_data-utf8_to_ucs2 :
    (text : Bytes) (room capacity first_octet : ℕ) {units : Bytes}
    → IsText text
    → length text ≤ capacity
    → first_octet < 64
    → length units ≤ 70
    → utf8_to_ucs2 text room ≡ some units
    → decode_user_data first_octet 8 (2 * length units) (units_octets units) (suc capacity)
      ≡ (ucs2, no_concat, ok text)
unfolding utf8_to_ucs2 utf8_each decode_user_data dcs_encoding decode_ucs2 read_udh
decode_user_data-utf8_to_ucs2 text room capacity first_octet {units} t fits plain few h =
    let (q, same, reads) =
      ucs2_loop-ReadsBack room (suc capacity) (length text) text [] [] t (omega arith) h in
    let size = length-units_octets units in
    let header : (first_octet / 64 % 2 == 1) ≡ false = ground arith in
    let open' : (ltb (length (units_octets units)) (2 * length units) || ltb 140 (2 * length units))
        ≡ false =
      ground arith in
    let even : ((2 * length units - 0) % 2 == 0) ≡ true = ground arith in
    let all_of_it : take (2 * length units - 0) (units_octets units) ≡ units_octets units =
      take-all (2 * length units - 0) (units_octets units) (omega (arith, size)) in
    let back : ucs2_from none (suc capacity) (units_octets units) [] ≡ ok text = rw same reads in
    rw (header, open', even, all_of_it, back) refl
