-- ===== src/Codec/Septets/Packing.antt =====
-- One round of pack_septets, on the octets as a number.
use Prim.Native.Nat.{bit_or}
use esp32_sms_gateway.Base.{
  ℕ, zero, suc, ◌+◌, ◌-◌, ◌*◌, ◌/◌, ◌%◌, ◌^◌, ◌≤◌, ◌<◌, ◌≡◌, sym, ap, subst, ◌∙◌, ◌&&◌, length,
  length-set, get_or, Bytes, arith, ltb, if◌then◌else◌, Bool-cases, inl, inr,
}
use esp32_sms_gateway.Codec.Hex.RoundTrip.{IsOctets}
use esp32_sms_gateway.Codec.Septets.{or_into, pack_one}
use esp32_sms_gateway.Codec.Septets.Bits.{bit_or_parted}
use esp32_sms_gateway.Codec.Septets.Number.{
  number, pow_byte, pow_add, number-set, set-IsOctets, get_or-set_next, free_bits,
}

-- The eight places of a bit in its octet.
pub by_place :
    (P : ℕ → Type 0) → P 0 → P 1 → P 2 → P 3 → P 4 → P 5 → P 6 → P 7 → (s : ℕ) → s < 8 → P s
by_place P a b c d e f g h zero small = a
by_place P a b c d e f g h (suc zero) small = b
by_place P a b c d e f g h (suc (suc zero)) small = c
by_place P a b c d e f g h (suc (suc (suc zero))) small = d
by_place P a b c d e f g h (suc (suc (suc (suc zero)))) small = e
by_place P a b c d e f g h (suc (suc (suc (suc (suc zero))))) small = f
by_place P a b c d e f g h (suc (suc (suc (suc (suc (suc zero)))))) small = g
by_place P a b c d e f g h (suc (suc (suc (suc (suc (suc (suc zero))))))) small = h
by_place P a b c d e f g h (suc (suc (suc (suc (suc (suc (suc (suc s)))))))) small =
    absurd (omega arith)

-- The part of a shifted septet in the octet of its bit, and that in the next one.
abbrev Fields : ℕ → ℕ → ℕ → Type 0
Fields g v s =
    (v * 2 ^ s % 256 ≡ v % 2 ^ (8 - s) * 2 ^ s)
    × (g + v * 2 ^ s % 256 < 256)
    × (v * 2 ^ s ≡ v * 2 ^ s % 256 + 256 * (v / 2 ^ (8 - s)))
    × (v / 2 ^ (8 - s) < 256)

fields : (s g v : ℕ) → s < 8 → g < 2 ^ s → v < 128 → Fields g v s
fields s g v small low septet =
    by_place (λ s. g < 2 ^ s → Fields g v s) (λ l. omega arith) (λ l. omega arith)
      (λ l. omega arith) (λ l. omega arith) (λ l. omega arith) (λ l. omega arith) (λ l. omega arith)
      (λ l. omega arith) s small low

-- The write of the low part.
low_write :
    (out : Bytes) (i s v : ℕ)
    → IsOctets out
    → s < 8
    → v < 128
    → i < length out
    → number out < 2 ^ (8 * i + s)
    → (number (or_into out i (v * 2 ^ s)) ≡ number out + v * 2 ^ s % 256 * 2 ^ (8 * i))
      × IsOctets (or_into out i (v * 2 ^ s))
      × (length (or_into out i (v * 2 ^ s)) ≡ length out)
      × (get_or (or_into out i (v * 2 ^ s)) (suc i) 0 ≡ 0)
unfolding or_into
low_write out i s v octets small septet within' below =
    let (free, empty) = free_bits out i s octets small below in
    let (shifted, fits, _, _) = fields s (get_or out i 0) v small free septet in
    let sum : bit_or (get_or out i 0) (v * 2 ^ s % 256) ≡ get_or out i 0 + v * 2 ^ s % 256 =
      rw shifted (bit_or_parted (get_or out i 0) (v % 2 ^ (8 - s)) s free) in
    rw sum (
      omega (arith, number-set out i (get_or out i 0 + v * 2 ^ s % 256) within'),
      set-IsOctets out i (get_or out i 0 + v * 2 ^ s % 256) fits octets,
      length-set out i (get_or out i 0 + v * 2 ^ s % 256),
      get_or-set_next out i (get_or out i 0 + v * 2 ^ s % 256) ∙ empty,
    )

-- The write of the high part into an empty octet.
high_write :
    (out : Bytes) (i v : ℕ)
    → IsOctets out
    → v < 256
    → i < length out
    → get_or out i 0 ≡ 0
    → (number (or_into out i v) ≡ number out + v * 2 ^ (8 * i))
      × IsOctets (or_into out i v)
      × (length (or_into out i v) ≡ length out)
unfolding or_into
high_write out i v octets small within' empty =
    let sum : bit_or (get_or out i 0) (v % 256) ≡ v = rw empty (plain v small) in
    rw sum (
      omega (arith, number-set out i v within', ap (λ (t : ℕ). t * 2 ^ (8 * i)) empty),
      set-IsOctets out i v small octets,
      length-set out i v,
    )
  where
    plain : (v : ℕ) → v < 256 → bit_or 0 (v % 256) ≡ v
    plain v small =
        let same : v % 256 ≡ v * 2 ^ 0 = omega arith in
        rw same (bit_or_parted 0 v 0 (omega arith) ∙ (omega arith))

-- The sum of both parts, at their places.
parts_sum :
    (n v i s : ℕ)
    → v * 2 ^ s ≡ v * 2 ^ s % 256 + 256 * (v / 2 ^ (8 - s))
    → n + v * 2 ^ s % 256 * 2 ^ (8 * i) + v / 2 ^ (8 - s) * 2 ^ (8 * suc i)
      ≡ n + v * 2 ^ (8 * i + s)
parts_sum n v i s e = omega (
  arith,
  ap (λ (t : ℕ). t * 2 ^ (8 * i)) e,
  ap (λ (t : ℕ). v / 2 ^ (8 - s) * t) (pow_byte i),
  ap (λ (t : ℕ). v * t) (pow_add (8 * i) s),
)

abbrev pub Packed : ℕ → Bytes → ℕ → ℕ → Bytes → Type 0
Packed total out bit v out' =
    (number out' ≡ number out + v * 2 ^ bit) × IsOctets out' × (length out' ≡ total)

pack_at :
    (total i s septet : ℕ) (out : Bytes)
    → IsOctets out
    → s < 8
    → length out ≡ total
    → 8 * i + s + 7 ≤ 8 * total
    → number out < 2 ^ (8 * i + s)
    → septet < 128
    → Packed total out (8 * i + s) septet (
        if ltb 1 s && ltb (suc i) total
        then or_into (or_into out i (septet * 2 ^ s)) (suc i) (septet / 2 ^ (8 - s))
        else or_into out i (septet * 2 ^ s))
pack_at total i s septet out octets small size room below fits =
    let (free, empty) = free_bits out i s octets small below in
    let (_, _, split, high) = fields s (get_or out i 0) septet small free fits in
    let (low_number, low_octets, low_size, low_next) =
      low_write out i s septet octets small fits (omega (arith, room, size)) below in
    elim (Bool-cases (ltb 1 s && ltb (suc i) total)) [
      | inl two ↦
          let next : suc i < total = ground (arith, two) in
          let (high_number, high_octets, high_size) =
            high_write (or_into out i (septet * 2 ^ s)) (suc i) (septet / 2 ^ (8 - s)) low_octets
              high (omega (arith, next, low_size, size)) low_next in
          rw two (
            omega (arith, high_number, low_number, parts_sum (number out) septet i s split),
            high_octets,
            omega (arith, high_size, low_size, size),
          )
      | inr one ↦
          let early : s ≤ 1 = ground (arith, one, room) in
          let none_high : septet / 2 ^ (8 - s) ≡ 0 = no_high s septet early fits in
          rw one (
            omega (
              arith,
              low_number,
              parts_sum (number out) septet i s split,
              ap (λ (t : ℕ). t * 2 ^ (8 * suc i)) none_high,
            ),
            low_octets,
            omega (arith, low_size, size),
          )
    ]
  where
    no_high : (s v : ℕ) → s ≤ 1 → v < 128 → v / 2 ^ (8 - s) ≡ 0
    no_high zero v h k = omega arith
    no_high (suc zero) v h k = omega arith
    no_high (suc (suc s)) v h k = absurd (omega arith)

pub pack_one-Packed :
    (total bit septet : ℕ) (out : Bytes)
    → IsOctets out
    → length out ≡ total
    → bit + 7 ≤ 8 * total
    → number out < 2 ^ bit
    → septet < 128
    → Packed total out bit septet (pack_one total out bit septet)
unfolding pack_one
pack_one-Packed total bit septet out octets size room below fits =
    let place : bit ≡ 8 * (bit / 8) + bit % 8 = omega arith in
    let plain : septet % 128 ≡ septet = omega arith in
    let next : bit / 8 + 1 ≡ suc (bit / 8) = omega arith in
    let it =
      pack_at total (bit / 8) (bit % 8) septet out octets (omega arith) size
        (omega (arith, room, place)) (subst (λ n. number out < 2 ^ n) place below) fits in
    rw (plain, next)
      (subst
        (λ n. Packed total out n septet (
          if ltb 1 (bit % 8) && ltb (suc (bit / 8)) total
          then or_into (or_into out (bit / 8) (septet * 2 ^ (bit % 8))) (suc (bit / 8))
              (septet / 2 ^ (8 - bit % 8))
          else or_into out (bit / 8) (septet * 2 ^ (bit % 8))))
        (sym place) it)
