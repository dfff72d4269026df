-- ===== src/Codec/Septets.antt =====
-- Septets in octets: header_septets, pack_septets and unpack_septets of
-- components/sms_codec/sms_pdu.c. The buffer `out` is the list of its octets.
pub mod Bits
pub mod Number
pub mod Packing
pub mod RoundTrip
use Prim.Native.Nat.{bit_or}
use esp32_sms_gateway.Base.{
  ℕ, zero, suc, ◌+◌, ◌-◌, ◌*◌, ◌/◌, ◌%◌, ◌^◌, Bool, true, false, not, ◌&&◌, ◌||◌, Option, none,
  some, List, [], ◌∷◌, ◌++◌, length, get_or, set, replicate, ltb, leb, ◌==◌, if◌then◌else◌, ◌>>=◌,
  Bytes, drop,
}

-- header_septets
unfoldable pub header_septets : ℕ → ℕ
header_septets header_bytes = (header_bytes * 8 + 6) / 7

-- `out[index] |= value` on an octet
unfoldable pub or_into : Bytes → ℕ → ℕ → Bytes
or_into out index value = set out index (bit_or (get_or out index 0) (value % 256))

-- One round of the loop of pack_septets, at a bit.
unfoldable pub pack_one : ℕ → Bytes → ℕ → ℕ → Bytes
unfolding or_into
pack_one total_bytes out bit septet =
    let value = septet % 128 in
    let index = bit / 8 in
    let shift = bit % 8 in
    let low = or_into out index (value * 2 ^ shift) in
    if ltb 1 shift && ltb (index + 1) total_bytes
    then or_into low (index + 1) (value / 2 ^ (8 - shift))
    else low

-- The loop of pack_septets.
unfoldable pub pack_loop : ℕ → Bytes → ℕ → Bytes → Bytes
unfolding pack_one
pack_loop total_bytes out bit [] = out
pack_loop total_bytes out bit (septet ∷ septets) =
    pack_loop total_bytes (pack_one total_bytes out bit septet) (bit + 7) septets

-- hseptets of pack_septets
abbrev pub udh_septets : Bytes → ℕ
udh_septets udh = if ltb 0 (length udh) then header_septets (length udh) else 0

-- pack_septets: the octets, and the length in septets. memset and memcpy put the header in front of zeros.
unfoldable pub pack_septets : Bytes → Bytes → ℕ → Option (Bytes × ℕ)
unfolding pack_loop header_septets
pack_septets septets udh out_capacity =
    let hseptets = udh_septets udh in
    let total_septets = hseptets + length septets in
    let total_bytes = (total_septets * 7 + 7) / 8 in
    if ltb 255 total_septets || ltb out_capacity total_bytes
    then none
    else some (
      pack_loop total_bytes (udh ++ replicate (total_bytes - length udh) 0) (hseptets * 7) septets,
      total_septets,
    )

-- One round of the loop of unpack_septets; `none` is a read behind the octets.
unfoldable pub unpack_one : Bytes → ℕ → Option ℕ
unpack_one packed bit =
    let index = bit / 8 in
    let shift = bit % 8 in
    let value = get_or packed index 0 / 2 ^ shift in
    if leb (length packed) index
    then none
    else if ltb 1 shift
    then (if leb (length packed) (index + 1)
        then none
        else some (bit_or value (get_or packed (index + 1) 0 * 2 ^ (8 - shift)) % 128))
    else some (value % 128)

-- unpack_septets
unfoldable pub unpack_septets : Bytes → ℕ → ℕ → Option Bytes
unfolding unpack_one
unpack_septets packed start_bit zero = some []
unpack_septets packed start_bit (suc count) = do
  septet ← unpack_one packed start_bit
  septets ← unpack_septets packed (start_bit + 7) count
  some (septet ∷ septets)
