-- ===== src/Codec/Header/RoundTrip.antt =====
-- The part of a message comes back from its header.
use esp32_sms_gateway.Base.{
  ℕ, ◌+◌, ◌*◌, ◌/◌, ◌%◌, ◌≤◌, ◌<◌, ◌≡◌, refl, true, false, leb, ltb, arith, Bool-cases, inl, inr,
}
use esp32_sms_gateway.Codec.Types.{ConcatInfo}
use esp32_sms_gateway.Codec.Header.{
  concat_header, note_element, elements_loop, valid_parts, parse_concat_udh, shift_loop,
  udh_has_national_language_shift,
}
use esp32_sms_gateway.Codec.Hex.RoundTrip.{IsOctets}

-- The part that a header is written for.
abbrev pub part : ℕ → ℕ → ℕ → ConcatInfo
part reference total sequence = record {
  present = true;
  is_16bit = ltb 0xFF reference;
  reference = reference;
  total_parts = total;
  part_number = sequence;
}

-- The header that is written for a part is read as that part, for each reference of 8 or 16 bits and
-- each number from 1 up to the total, and it shifts no language.
pub parse_concat_udh-concat_header :
    (reference total sequence : ℕ)
    → 0 < sequence
    → sequence ≤ total
    → (parse_concat_udh (concat_header reference total sequence)
        ≡ (part reference total sequence, true))
      × (udh_has_national_language_shift (concat_header reference total sequence) ≡ false)
unfolding concat_header parse_concat_udh elements_loop note_element valid_parts
    udh_has_national_language_shift shift_loop
parse_concat_udh-concat_header reference total sequence first last =
    elim (Bool-cases (leb reference 0xFF)) [
      | inl short ↦ rw short (ground arith, refl)
      | inr long ↦
          let whole : reference / 256 * 256 + reference % 256 ≡ reference = omega arith in
          let wide : ltb 0xFF reference ≡ true = ground arith in
          rw long (rw (whole, wide) (ground arith), refl)
    ]

pub concat_header-IsOctets :
    (reference total sequence : ℕ)
    → reference < 65536
    → total < 256
    → sequence < 256
    → IsOctets (concat_header reference total sequence)
unfolding concat_header
concat_header-IsOctets reference total sequence r t s = ground arith
