-- ===== src/Codec/Segments.antt =====
-- The cut of a message into segments in components/sms_codec/sms_pdu.c: split_gsm7, the loop that does
-- the same on UCS-2 units, and utf8_to_ucs2. Offsets into a message are the slices between them.
pub mod Cut
pub mod Sizes
pub mod Texts
use esp32_sms_gateway.Base.{
  ℕ, zero, suc, ◌+◌, ◌-◌, ◌*◌, ◌/◌, ◌%◌, Bool, true, false, not, ◌&&◌, ◌||◌, Option, none, some,
  List, [], ◌∷◌, ◌++◌, length, get_or, take, drop, ltb, leb, within, ◌==◌, if◌then◌else◌, ◌>>=◌,
  Bytes,
}
use esp32_sms_gateway.Codec.Utf8.{is_surrogate, utf8_each}

-- SMS_MAX_SEGMENTS
abbrev pub max_segments : ℕ
max_segments = 16

-- What the loop of split_gsm7 takes from the septets that are left.
unfoldable pub gsm7_take : ℕ → Bytes → ℕ
gsm7_take per_segment septets =
    if ltb per_segment (length septets)
    then (if ltb 0 per_segment && get_or septets (per_segment - 1) 0 == 0x1B
        then per_segment - 1
        else per_segment)
    else length septets

-- What the loop of sms_submit_encode and sms_submit_preflight takes from the units that are left.
unfoldable pub ucs2_take : ℕ → Bytes → ℕ
ucs2_take per_segment units =
    let count = if ltb per_segment (length units) then per_segment else length units in
    if ltb 0 count && ltb count (length units) && within 0xD800 0xDBFF (get_or units (count - 1) 0)
    then count - 1
    else count

-- The loop of split_gsm7 and of its like for UCS-2, while `parts` segments are free.
unfoldable pub split_by : (Bytes → ℕ) → ℕ → Bytes → Option (List Bytes)
split_by taking parts [] = some []
split_by taking zero (u ∷ units) = none
split_by taking (suc parts) (u ∷ units) =
    let taken = taking (u ∷ units) in
    let later = split_by taking parts (drop taken (u ∷ units)) in
    if taken == 0 then none else do segments ← later; some (take taken (u ∷ units) ∷ segments)

-- split_gsm7
unfoldable pub split_gsm7 : Bytes → ℕ → Option (List Bytes)
unfolding split_by gsm7_take
split_gsm7 septets per_segment = split_by (gsm7_take per_segment) max_segments septets

unfoldable pub split_ucs2 : Bytes → ℕ → Option (List Bytes)
unfolding split_by ucs2_take
split_ucs2 units per_segment = split_by (ucs2_take per_segment) max_segments units

-- The units of a code point.
unfoldable pub ucs2_units : ℕ → Bytes
ucs2_units cp =
    if leb cp 0xFFFF
    then cp ∷ []
    else (0xD800 + (cp - 0x10000) / 1024) ∷ (0xDC00 + (cp - 0x10000) % 1024) ∷ []

-- One round of utf8_to_ucs2.
unfoldable pub ucs2_step : ℕ → Bytes → ℕ → Option Bytes
unfolding ucs2_units
ucs2_step capacity units cp =
    if leb cp 0xFFFF && is_surrogate cp || ltb 0x10FFFF cp
    then none
    else if ltb capacity (length units + length (ucs2_units cp))
    then none
    else some (units ++ ucs2_units cp)

-- utf8_to_ucs2
unfoldable pub utf8_to_ucs2 : Bytes → ℕ → Option Bytes
unfolding ucs2_step
utf8_to_ucs2 text capacity = utf8_each (ucs2_step capacity) text []
