-- ===== src/Codec/Septets/RoundTrip.antt =====
-- Septets come back from the octets that they were packed into, behind any header.
use Prim.Native.Nat.{bit_or}
use native.Mathlib.Nat.{
  add-mul-div_right, div-eq_of_lt, one-le-pow, div-div-eq-div-mul, pow-le-pow_right,
}
use esp32_sms_gateway.Base.{
  ℕ, zero, suc, ◌+◌, ◌-◌, ◌*◌, ◌/◌, ◌%◌, ◌^◌, ◌≤◌, ◌<◌, ◌≡◌, refl, sym, ap, subst, ◌∙◌, false, ◌||◌,
  [], ◌∷◌, ◌++◌, length, length-append, get_or, drop, replicate, take, Bytes, arith, All, ltb, leb,
  Bool-cases, inl, inr, some,
}
use esp32_sms_gateway.Codec.Hex.RoundTrip.{IsOctets}
use esp32_sms_gateway.Codec.Septets.{
  header_septets, udh_septets, pack_one, pack_loop, pack_septets, unpack_one, unpack_septets,
}
use esp32_sms_gateway.Codec.Septets.Bits.{bit_or_parted}
use esp32_sms_gateway.Codec.Septets.Number.{
  number, pow_byte, pow_septet, pow_add, number-drop, get_or-number, number_next,
}
use esp32_sms_gateway.Codec.Septets.Packing.{by_place, Packed, pack_one-Packed}

abbrev pub IsSeptets : Bytes → Type 0
IsSeptets = All (λ s. s < 128)

-- Septets as one number, the first the least, and its digits again.
septet_number : Bytes → ℕ
septet_number [] = 0
septet_number (v ∷ septets) = v + 128 * septet_number septets

septet_digits : ℕ → ℕ → Bytes
septet_digits n zero = []
septet_digits n (suc count) = n % 128 ∷ septet_digits (n / 128) count

septet_digits-septet_number :
    (septets : Bytes)
    → IsSeptets septets
    → septet_digits (septet_number septets) (length septets) ≡ septets
unfolding septet_number septet_digits
septet_digits-septet_number [] h = refl
septet_digits-septet_number (v ∷ septets) h =
    let low : (v + 128 * septet_number septets) % 128 ≡ v = omega (arith, h.0) in
    let high : (v + 128 * septet_number septets) / 128 ≡ septet_number septets =
      omega (arith, h.0) in
    rw (low, high, septet_digits-septet_number septets h.1) refl

pack_loop-Packed :
    (total bit : ℕ) (out septets : Bytes)
    → IsOctets out
    → length out ≡ total
    → bit + 7 * length septets ≤ 8 * total
    → number out < 2 ^ bit
    → IsSeptets septets
    → Packed total out bit (septet_number septets) (pack_loop total out bit septets)
unfolding pack_loop septet_number
pack_loop-Packed total bit out [] octets size room below fits = (omega arith, octets, size)
pack_loop-Packed total bit out (v ∷ septets) octets size room below fits =
    let (n, o, l) = pack_one-Packed total bit v out octets size (omega arith) below fits.0 in
    let smaller : number out + v * 2 ^ bit < 2 ^ (bit + 7) =
      grind (arith, pow_septet bit, fits.0, below) in
    let (n', o', l') =
      pack_loop-Packed total (bit + 7) (pack_one total out bit v) septets o l (omega arith)
        (omega (arith, n, smaller)) fits.1 in
    (omega (arith, n', n, ap (λ (t : ℕ). septet_number septets * t) (pow_septet bit)), o', l')

-- The bits at a place of an octet, with those of the next that they need.
window :
    (s n a b : ℕ)
    → s < 8
    → a ≡ n % 256
    → b ≡ n / 256 % 256
    → (bit_or (a / 2 ^ s) (b * 2 ^ (8 - s)) % 128 ≡ n / 2 ^ s % 128)
      × (s ≤ 1 → a / 2 ^ s % 128 ≡ n / 2 ^ s % 128)
window s n a b small ea eb =
    let e : bit_or (a / 2 ^ s) (b * 2 ^ (8 - s)) ≡ a / 2 ^ s + b * 2 ^ (8 - s) =
      bit_or_parted (a / 2 ^ s) b (8 - s) (high_small s a small (omega arith)) in
    rw e (
      by_place
        (λ s.
          ((a / 2 ^ s + b * 2 ^ (8 - s)) % 128 ≡ n / 2 ^ s % 128)
          × (s ≤ 1 → a / 2 ^ s % 128 ≡ n / 2 ^ s % 128))
        (omega arith, λ h. omega arith) (omega arith, λ h. omega arith)
        (omega arith, λ h. omega arith) (omega arith, λ h. omega arith)
        (omega arith, λ h. omega arith) (omega arith, λ h. omega arith)
        (omega arith, λ h. omega arith) (omega arith, λ h. omega arith) s small)
  where
    high_small : (s a : ℕ) → s < 8 → a < 256 → a / 2 ^ s < 2 ^ (8 - s)
    high_small s a small h =
        by_place (λ s. a / 2 ^ s < 2 ^ (8 - s)) (omega arith) (omega arith) (omega arith)
          (omega arith) (omega arith) (omega arith) (omega arith) (omega arith) s small

number_shift :
    (packed : Bytes) (bit : ℕ)
    → IsOctets packed
    → number (drop (bit / 8) packed) / 2 ^ (bit % 8) ≡ number packed / 2 ^ bit
number_shift packed bit octets =
    let place : 8 * (bit / 8) + bit % 8 ≡ bit = omega arith in
    ap (λ (t : ℕ). t / 2 ^ (bit % 8)) (number-drop packed (bit / 8) octets)
    ∙ div-div-eq-div-mul (number packed) (2 ^ (8 * (bit / 8))) (2 ^ (bit % 8))
    ∙ ap (λ (t : ℕ). number packed / t)
        (let swap : 2 ^ (8 * (bit / 8)) * 2 ^ (bit % 8) ≡ 2 ^ (bit % 8) * 2 ^ (8 * (bit / 8)) =
            grind arith in
          swap ∙ sym (pow_add (8 * (bit / 8)) (bit % 8)) ∙ ap (λ (t : ℕ). 2 ^ t) place)

unpack_one-number :
    (packed : Bytes) (bit : ℕ)
    → IsOctets packed
    → bit + 7 ≤ 8 * length packed
    → unpack_one packed bit ≡ some (number packed / 2 ^ bit % 128)
unfolding unpack_one
unpack_one-number packed bit octets room =
    let next : bit / 8 + 1 ≡ suc (bit / 8) = omega arith in
    let inside : leb (length packed) (bit / 8) ≡ false = ground arith in
    let (two, one) =
      window (bit % 8) (number (drop (bit / 8) packed)) (get_or packed (bit / 8) 0)
        (get_or packed (suc (bit / 8)) 0) (omega arith) (get_or-number packed (bit / 8) octets)
        (get_or-number packed (suc (bit / 8)) octets
          ∙ ap (λ (t : ℕ). t % 256) (number_next packed (bit / 8) octets)) in
    elim (Bool-cases (ltb 1 (bit % 8))) [
      | inl wide ↦
          let inside' : leb (length packed) (suc (bit / 8)) ≡ false = ground (arith, wide) in
          rw (next, inside, wide, inside', two, number_shift packed bit octets) refl
      | inr narrow ↦
          rw (inside, narrow, one (ground (arith, narrow)), number_shift packed bit octets) refl
    ]

unpack_septets-number :
    (packed : Bytes) (bit count : ℕ)
    → IsOctets packed
    → bit + 7 * count ≤ 8 * length packed
    → unpack_septets packed bit count ≡ some (septet_digits (number packed / 2 ^ bit) count)
unfolding unpack_septets septet_digits
unpack_septets-number packed bit zero octets room = refl
unpack_septets-number packed bit (suc count) octets room =
    let turned : 128 * 2 ^ bit ≡ 2 ^ bit * 128 = omega arith in
    let shifted : number packed / 2 ^ (bit + 7) ≡ number packed / 2 ^ bit / 128 =
      ap (λ (t : ℕ). number packed / t) (pow_septet bit ∙ turned)
      ∙ sym (div-div-eq-div-mul (number packed) (2 ^ bit) 128) in
    rw
      (
        unpack_one-number packed bit octets (omega arith),
        unpack_septets-number packed (bit + 7) count octets (omega arith),
        shifted,
      )
      refl

number_zeros : (udh : Bytes) (n : ℕ) → number (udh ++ replicate n 0) ≡ number udh
unfolding number
number_zeros [] zero = refl
number_zeros [] (suc n) = omega (arith, number_zeros [] n)
number_zeros (b ∷ udh) n = omega (arith, number_zeros udh n)

zeros-IsOctets : (udh : Bytes) (n : ℕ) → IsOctets udh → IsOctets (udh ++ replicate n 0)
zeros-IsOctets [] zero h = tt
zeros-IsOctets [] (suc n) h = (omega arith, zeros-IsOctets [] n tt)
zeros-IsOctets (b ∷ udh) n h = (h.0, zeros-IsOctets udh n h.1)

length-replicate : (n : ℕ) → length {A = ℕ} (replicate n 0) ≡ n
length-replicate zero = refl
length-replicate (suc n) = omega (arith, length-replicate n)

number-lt : (udh : Bytes) → IsOctets udh → number udh < 2 ^ (8 * length udh)
unfolding number
number-lt [] h = omega arith
number-lt (b ∷ udh) h = omega (arith, h.0, number-lt udh h.1, pow_byte (length udh))

-- The first octets are those that a number ends with.
take-number :
    (udh packed : Bytes) (k : ℕ)
    → IsOctets udh
    → IsOctets packed
    → length udh ≤ length packed
    → number packed ≡ number udh + k * 2 ^ (8 * length udh)
    → take (length udh) packed ≡ udh
unfolding number
take-number [] packed k h o fits e = refl
take-number (u ∷ udh) [] k h o fits e = absurd (omega arith)
take-number (u ∷ udh) (p ∷ packed) k h o fits e =
    let wide = ap (λ (t : ℕ). k * t) (pow_byte (length udh)) in
    let first : p ≡ u = omega (arith, h.0, o.0, e, wide) in
    let rest : number packed ≡ number udh + k * 2 ^ (8 * length udh) =
      omega (arith, h.0, o.0, e, wide) in
    rw (first, take-number udh packed k h.1 o.1 (omega (arith, fits)) rest) refl

-- What pack_septets gives: octets, as many as the length in septets needs; the header in front, and
-- the septets where unpack_septets looks for them.
abbrev pub IsPacked : Bytes → Bytes → Bytes → ℕ → Type 0
IsPacked septets udh packed udl =
    (unpack_septets packed (udh_septets udh * 7) (length septets) ≡ some septets)
    × (take (length udh) packed ≡ udh)
    × (udl ≡ udh_septets udh + length septets)
    × (length packed ≡ (udl * 7 + 7) / 8)
    × IsOctets packed

udh_room : (udh : Bytes) → 8 * length udh ≤ udh_septets udh * 7
unfolding header_septets
udh_room udh = ground arith

-- The same from the number that the octets make.
number-IsPacked :
    (septets udh packed : Bytes)
    → IsSeptets septets
    → IsOctets udh
    → IsOctets packed
    → length packed ≡ ((udh_septets udh + length septets) * 7 + 7) / 8
    → number udh < 2 ^ (udh_septets udh * 7)
    → number packed ≡ number udh + septet_number septets * 2 ^ (udh_septets udh * 7)
    → IsPacked septets udh packed (udh_septets udh + length septets)
number-IsPacked septets udh packed fit header octets size small e =
    let b = udh_septets udh * 7 in
    let w = septet_number septets in
    let l = 8 * length udh in
    let room = udh_room udh in
    let above : number packed / 2 ^ b ≡ w = rw e (
      add-mul-div_right (number udh) w (one-le-pow b 2 (omega arith))
      ∙ ap (λ (t : ℕ). t + w) (div-eq_of_lt small)
      ∙ (omega arith)) in
    let parts : b - l + l ≡ b = omega (arith, room) in
    let spread : number packed ≡ number udh + w * 2 ^ (b - l) * 2 ^ l =
      omega
        (arith, e, ap (λ (t : ℕ). w * t) (ap (λ (t : ℕ). 2 ^ t) (sym parts) ∙ pow_add (b - l) l)) in
    (
      unpack_septets-number packed b (length septets) octets (omega (arith, size))
          ∙ ap (λ t. some (septet_digits t (length septets))) above
          ∙ ap some (septet_digits-septet_number septets fit),
      take-number udh packed (w * 2 ^ (b - l)) header octets (omega (arith, size, room)) spread,
      refl,
      size,
      octets,
    )

-- The octets that pack_septets writes.
abbrev packed_octets : Bytes → Bytes → Bytes
packed_octets septets udh =
    let total = ((udh_septets udh + length septets) * 7 + 7) / 8 in
    pack_loop total (udh ++ replicate (total - length udh) 0) (udh_septets udh * 7) septets

packed_octets-IsPacked :
    (septets udh : Bytes)
    → IsSeptets septets
    → IsOctets udh
    → IsPacked septets udh (packed_octets septets udh) (udh_septets udh + length septets)
packed_octets-IsPacked septets udh fit header =
    let total = ((udh_septets udh + length septets) * 7 + 7) / 8 in
    let room = udh_room udh in
    let up : 2 ^ (8 * length udh) ≤ 2 ^ (udh_septets udh * 7) =
      pow-le-pow_right (omega arith) room in
    let start = number_zeros udh (total - length udh) in
    let below = number-lt udh header in
    let (n, o, l) =
      pack_loop-Packed total (udh_septets udh * 7) (udh ++ replicate (total - length udh) 0) septets
        (zeros-IsOctets udh (total - length udh) header)
        (omega (
          arith,
          length-append udh (replicate (total - length udh) 0),
          length-replicate (total - length udh),
          room,
        ))
        (omega arith) (omega (arith, start, below, up)) fit in
    number-IsPacked septets udh (packed_octets septets udh) fit header o l
      (omega (arith, below, up)) (omega (arith, n, start))

-- Packed septets are unpacked as they were, from behind the header, which stands in front of them.
pub unpack_septets-pack_septets :
    (septets udh : Bytes) (out_capacity : ℕ) {packed : Bytes} {udl : ℕ}
    → IsSeptets septets
    → IsOctets udh
    → pack_septets septets udh out_capacity ≡ some (packed, udl)
    → IsPacked septets udh packed udl
unfolding pack_septets
unpack_septets-pack_septets septets udh out_capacity {packed} {udl} fit header h =
    let h' = udh_septets udh + length septets in
    elim (Bool-cases (ltb 255 h' || ltb out_capacity ((h' * 7 + 7) / 8))) [
      | inl refused ↦ cc (rw refused at h)
      | inr accepted ↦
          let written : packed_octets septets udh ≡ packed = cc (rw accepted at h) in
          let size : h' ≡ udl = cc (rw accepted at h) in
          subst (IsPacked septets udh packed) size (
            subst (λ t. IsPacked septets udh t h') written
              (packed_octets-IsPacked septets udh fit header))
    ]
