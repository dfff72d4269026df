-- ===== src/Codec/Submit/Total.antt =====
-- When the octets of a segment fit.
use esp32_sms_gateway.Base.{
  ℕ, zero, suc, ◌+◌, ◌-◌, ◌*◌, ◌/◌, ◌%◌, ◌≤◌, ◌<◌, ◌≡◌, refl, ap, ◌∙◌, Bool, true, false, ◌&&◌,
  ◌||◌, Option, some, [], ◌∷◌, ◌++◌, length, length-append, length-set, replicate, ltb,
  if◌then◌else◌, ◌>>=◌, Bytes, arith, Bool-cases, inl, inr,
}
use esp32_sms_gateway.Codec.Types.{Encoding, gsm7, ucs2, eight_bit, unknown}
use esp32_sms_gateway.Codec.Hex.{hex_encode, hex_digits}
use esp32_sms_gateway.Codec.Septets.{
  header_septets, udh_septets, or_into, pack_one, pack_loop, pack_septets,
}
use esp32_sms_gateway.Codec.Address.{
  max_pdu_octets, buffer_append, buffer_put, put_digits, address_validate, address_encode,
}
use esp32_sms_gateway.Codec.Address.RoundTrip.{address_validate-eq-some}
use esp32_sms_gateway.Codec.Submit.{
  put_user_data, submit_octets, build_submit_pdu, max_pdu_hex, first_octet,
}

buffer_put_room :
    (buffer : Bytes) (octet : ℕ)
    → length buffer < max_pdu_octets
    → buffer_put buffer octet ≡ some (buffer ++ octet ∷ [])
unfolding buffer_put
buffer_put_room buffer octet h = ground arith

buffer_append_room :
    (buffer octets : Bytes)
    → length buffer + length octets ≤ max_pdu_octets
    → buffer_append buffer octets ≡ some (buffer ++ octets)
unfolding buffer_append
buffer_append_room buffer octets h = ground arith

-- A result of at most `size` octets.
abbrev Fits : ℕ → Option Bytes → Type 0
Fits size result = (out : Bytes) × (result ≡ some out) × (length out ≤ size)

put_digits_room :
    (buffer digits : Bytes) (size : ℕ)
    → length buffer + (length digits + 1) / 2 ≤ size
    → size ≤ max_pdu_octets
    → Fits size (put_digits buffer digits)
unfolding put_digits
put_digits_room buffer [] size h top = (buffer, refl, omega arith)
put_digits_room buffer (d ∷ []) size h top =
    let put = buffer_put_room buffer (d - b'0' + 15 * 16) (omega arith) in
    (_, put, omega (arith, length-append buffer ((d - b'0' + 15 * 16) ∷ [])))
put_digits_room buffer (d ∷ e ∷ digits) size h top =
    let octet = d - b'0' + (e - b'0') * 16 in
    rw (buffer_put_room buffer octet (omega arith)) (
      put_digits_room (buffer ++ octet ∷ []) digits size
        (omega (arith, length-append buffer (octet ∷ []))) top)

-- A valid address takes twelve octets at most.
address_encode_room :
    (buffer recipient : Bytes) {digits : Bytes} {international : Bool}
    → address_validate (some recipient) ≡ some (digits, international)
    → length buffer ≤ 100
    → Fits (length buffer + 12) (address_encode buffer (some recipient))
unfolding address_encode
address_encode_room buffer recipient {digits} {international} h small =
    let (same, good, some_digits, few) =
      address_validate-eq-some recipient digits international h in
    let toa = if international then 0x91 else 0x81 in
    let one = length-append buffer (length digits ∷ []) in
    let two = length-append (buffer ++ length digits ∷ []) (toa ∷ []) in
    rw
      (
        h,
        buffer_put_room buffer (length digits) (omega arith),
        buffer_put_room (buffer ++ length digits ∷ []) toa (omega (arith, one)),
      )
      (put_digits_room ((buffer ++ length digits ∷ []) ++ toa ∷ []) digits (length buffer + 12)
        (omega (arith, one, two)) (omega arith))

length-pack_one :
    (total bit septet : ℕ) (out : Bytes) → length (pack_one total out bit septet) ≡ length out
unfolding pack_one or_into
length-pack_one total bit septet out =
    elim (Bool-cases (ltb 1 (bit % 8) && ltb (bit / 8 + 1) total)) [
      | inl both ↦ rw (both, length-set, length-set) refl
      | inr low ↦ rw (low, length-set) refl
    ]

length-pack_loop :
    (total bit : ℕ) (out septets : Bytes) → length (pack_loop total out bit septets) ≡ length out
unfolding pack_loop
length-pack_loop total bit out [] = refl
length-pack_loop total bit out (v ∷ septets) =
    length-pack_loop total (bit + 7) (pack_one total out bit v) septets
    ∙ length-pack_one total bit v out

length-replicate : (n v : ℕ) → length (replicate n v) ≡ n
length-replicate zero v = refl
length-replicate (suc n) v = ap suc (length-replicate n v)

-- Septets and a header of 160 septets together are packed in 140 octets.
pack_septets_room :
    (septets udh : Bytes)
    → udh_septets udh + length septets ≤ 160
    → (packed : Bytes) × (udl : ℕ) × (pack_septets septets udh 140 ≡ some (packed, udl))
      × (length packed ≤ 140)
unfolding pack_septets header_septets
pack_septets_room septets udh h =
    let hs = udh_septets udh in
    let total = ((hs + length septets) * 7 + 7) / 8 in
    let start = udh ++ replicate (total - length udh) 0 in
    let open' : (ltb 255 (hs + length septets) || ltb 140 total) ≡ false = ground arith in
    let header : length udh * 8 ≤ hs * 7 = ground arith in
    (
      pack_loop total start (hs * 7) septets,
      hs + length septets,
      rw open' refl,
      omega (
        arith,
        length-pack_loop total (hs * 7) start septets,
        length-append udh (replicate (total - length udh) 0),
        length-replicate (total - length udh) 0,
        header,
        h,
      ),
    )

-- User data that fits a segment.
unfoldable pub FitsSegment : Encoding → Bytes → Bytes → Type 0
FitsSegment gsm7 udh payload = udh_septets udh + length payload ≤ 160
FitsSegment ucs2 udh payload = length udh + length payload ≤ 140
FitsSegment eight_bit udh payload = ⊥
FitsSegment unknown udh payload = ⊥

header_and_payload :
    (buffer udh payload : Bytes)
    → length buffer ≤ 36
    → length udh + length payload ≤ 140
    → Fits max_pdu_octets (do
      pdu ← if ltb 0 (length udh) then buffer_append buffer udh else some buffer
      buffer_append pdu payload)
header_and_payload buffer [] payload small h =
    rw (buffer_append_room buffer payload (omega arith))
      (_, refl, omega (arith, length-append buffer payload))
header_and_payload buffer (u ∷ udh) payload small h =
    let one = length-append buffer (u ∷ udh) in
    let present : ltb 0 (length (u ∷ udh)) ≡ true = ground arith in
    rw
      (
        present,
        buffer_append_room buffer (u ∷ udh) (omega arith),
        buffer_append_room (buffer ++ u ∷ udh) payload (omega (arith, one)),
      )
      (_, refl, omega (arith, one, length-append (buffer ++ u ∷ udh) payload))

put_user_data_room :
    (buffer : Bytes) (encoding : Encoding) (udh payload : Bytes)
    → length buffer ≤ 30
    → FitsSegment encoding udh payload
    → Fits max_pdu_octets (put_user_data buffer encoding udh payload)
unfolding put_user_data FitsSegment
put_user_data_room buffer gsm7 udh payload small h =
    let (packed, udl, pack, few) = pack_septets_room payload udh h in
    let one = length-append buffer (0 ∷ []) in
    let two = length-append (buffer ++ 0 ∷ []) (udl ∷ []) in
    let three = length-append ((buffer ++ 0 ∷ []) ++ udl ∷ []) packed in
    rw
      (
        buffer_put_room buffer 0 (omega arith),
        pack,
        buffer_put_room (buffer ++ 0 ∷ []) udl (omega (arith, one)),
        buffer_append_room ((buffer ++ 0 ∷ []) ++ udl ∷ []) packed (omega (arith, one, two)),
      )
      (_, refl, omega (arith, one, two, three))
put_user_data_room buffer ucs2 udh payload small h =
    let size = length udh + length payload in
    let one = length-append buffer (8 ∷ []) in
    let front = (buffer ++ 8 ∷ []) ++ size ∷ [] in
    let two = length-append (buffer ++ 8 ∷ []) (size ∷ []) in
    let open' : ltb 140 size ≡ false = ground arith in
    rw
      (
        buffer_put_room buffer 8 (omega arith),
        open',
        buffer_put_room (buffer ++ 8 ∷ []) size (omega (arith, one)),
      )
      (header_and_payload front udh payload (omega (arith, one, two)) h)
put_user_data_room buffer eight_bit udh payload small h = absurd h
put_user_data_room buffer unknown udh payload small h = absurd h

hex_encode_room :
    (pdu : Bytes) → length pdu ≤ max_pdu_octets → hex_encode pdu max_pdu_hex ≡ some (hex_digits pdu)
unfolding hex_encode
hex_encode_room pdu h = ground arith

-- A segment whose user data fits is built for a valid recipient.
pub build_submit_pdu_room :
    (recipient : Bytes) {digits : Bytes} {international : Bool} (encoding : Encoding)
    (report : Bool) (udh payload : Bytes)
    → address_validate (some recipient) ≡ some (digits, international)
    → FitsSegment encoding udh payload
    → (tpdu_length : ℕ) × (hex : Bytes) × (build_submit_pdu recipient encoding report udh payload
        ≡ some (tpdu_length, hex))
unfolding build_submit_pdu submit_octets
build_submit_pdu_room recipient encoding report udh payload valid h =
    let first = first_octet report udh in
    let (pdu4, put4, small4) =
      address_encode_room (0 ∷ first ∷ 0 ∷ []) recipient valid (omega arith) in
    let one = length-append pdu4 (0 ∷ []) in
    let (pdu, put, small) =
      put_user_data_room (pdu4 ++ 0 ∷ []) encoding udh payload (omega (arith, one)) h in
    rw
      (
        buffer_put_room [] 0 (omega arith),
        buffer_put_room (0 ∷ []) first (omega arith),
        buffer_put_room (0 ∷ first ∷ []) 0 (omega arith),
        put4,
        buffer_put_room pdu4 0 (omega arith),
        put,
        hex_encode_room pdu small,
      )
      (_, _, refl)
