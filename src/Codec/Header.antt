-- ===== src/Codec/Header.antt =====
-- The header of user data in components/sms_codec/sms_pdu.c: concat_header, parse_concat_udh and
-- udh_has_national_language_shift. The information elements are the octets from `pos` up to `end`.
pub mod RoundTrip
use esp32_sms_gateway.Base.{
  ℕ, zero, suc, ◌+◌, ◌-◌, ◌*◌, ◌/◌, ◌%◌, Bool, true, false, not, ◌&&◌, ◌||◌, Option, none, some,
  List, [], ◌∷◌, ◌++◌, length, get_or, take, drop, ltb, leb, ◌==◌, if◌then◌else◌, ◌>>=◌, Bytes,
}
use esp32_sms_gateway.Codec.Types.{ConcatInfo}

-- concat_header: the octets written; the reference is a uint16_t, the others are uint8_t.
unfoldable pub concat_header : ℕ → ℕ → ℕ → Bytes
concat_header reference total sequence =
    if leb reference 0xFF
    then 0x05 ∷ 0x00 ∷ 0x03 ∷ reference ∷ total ∷ sequence ∷ []
    else 0x06 ∷ 0x08 ∷ 0x04 ∷ (reference / 256) ∷ (reference % 256) ∷ total ∷ sequence ∷ []

abbrev pub no_concat : ConcatInfo
no_concat = record {
  present = false;
  is_16bit = false;
  reference = 0;
  total_parts = 0;
  part_number = 0;
}

-- An information element of parse_concat_udh, with the octets from its content on.
unfoldable pub note_element : ConcatInfo → ℕ → ℕ → Bytes → ConcatInfo
note_element concat iei len content =
    if iei == 0x00 && len == 3
    then record {
      present = true;
      is_16bit = false;
      reference = get_or content 0 0;
      total_parts = get_or content 1 0;
      part_number = get_or content 2 0;
    }
    else if iei == 0x08 && len == 4
    then record {
      present = true;
      is_16bit = true;
      reference = get_or content 0 0 * 256 + get_or content 1 0;
      total_parts = get_or content 2 0;
      part_number = get_or content 3 0;
    }
    else concat

-- The loop of parse_concat_udh on fuel: a round takes two octets at least. The part as it is left, and
-- whether every element ends within the header.
unfoldable pub elements_loop : ℕ → ConcatInfo → Bytes → ConcatInfo × Bool
unfolding note_element
elements_loop fuel concat [] = (concat, true)
elements_loop fuel concat (iei ∷ []) = (concat, true)
elements_loop zero concat (iei ∷ len ∷ content) = (concat, false)
elements_loop (suc fuel) concat (iei ∷ len ∷ content) =
    let rest = elements_loop fuel (note_element concat iei len content) (drop len content) in
    if ltb (length content) len then (concat, false) else rest

unfoldable pub valid_parts : ConcatInfo → Bool
valid_parts c =
    not (c.present && (c.total_parts == 0 || c.part_number == 0 || ltb c.total_parts c.part_number))

-- parse_concat_udh: what it leaves in `concat`, and its result.
unfoldable pub parse_concat_udh : Bytes → ConcatInfo × Bool
unfolding elements_loop valid_parts
parse_concat_udh [] = (no_concat, true)
parse_concat_udh (size ∷ elements) =
    let (concat, ended) = elements_loop (length elements) no_concat (take size elements) in
    if ltb (length elements) size then (no_concat, false) else (concat, ended && valid_parts concat)

-- The loop of udh_has_national_language_shift, on fuel as above.
unfoldable pub shift_loop : ℕ → Bytes → Bool
shift_loop fuel [] = false
shift_loop fuel (iei ∷ []) = false
shift_loop zero (iei ∷ len ∷ content) = false
shift_loop (suc fuel) (iei ∷ len ∷ content) =
    let rest = shift_loop fuel (drop len content) in
    if ltb (length content) len then false else if iei == 0x24 || iei == 0x25 then true else rest

-- udh_has_national_language_shift
unfoldable pub udh_has_national_language_shift : Bytes → Bool
unfolding shift_loop
udh_has_national_language_shift [] = false
udh_has_national_language_shift (size ∷ elements) =
    if ltb (length elements) size then false else shift_loop (length elements) (take size elements)
