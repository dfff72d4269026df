-- ===== src/Codec/Hex/RoundTrip.antt =====
-- Octets come back from their hexadecimal text.
use esp32_sms_gateway.Base.{
  ℕ, ◌+◌, ◌*◌, ◌/◌, ◌%◌, ◌<◌, ◌≤◌, ◌≡◌, refl, some, [], ◌∷◌, length, ltb, ◌==◌, Bytes, arith, All,
  Bool-cases, inl, inr, subst, false,
}
use esp32_sms_gateway.Codec.Hex.{
  ok, hex_value, hex_pairs, valid_hex, hex_decode, hex_digit, hex_digits, hex_encode,
}

-- The values of an octet.
abbrev pub IsOctets : Bytes → Type 0
IsOctets = All (λ b. b < 256)

pub hex_value-hex_digit : (n : ℕ) → n < 16 → hex_value (hex_digit n) ≡ some n
unfolding hex_value hex_digit
hex_value-hex_digit n h = ground arith

pub hex_pairs-hex_digits : (ds : Bytes) → IsOctets ds → hex_pairs (hex_digits ds) ≡ some ds
unfolding hex_pairs hex_digits
hex_pairs-hex_digits [] h = refl
hex_pairs-hex_digits (b ∷ ds) h =
    let same : b / 16 * 16 + b % 16 ≡ b = omega arith in
    rw
      (
        hex_value-hex_digit (b / 16) (omega (arith, h.0)),
        hex_value-hex_digit (b % 16) (omega arith),
        hex_pairs-hex_digits ds h.1,
        same,
      )
      refl

pub length-hex_digits : (ds : Bytes) → length (hex_digits ds) ≡ length ds * 2
unfolding hex_digits
length-hex_digits [] = refl
length-hex_digits (b ∷ ds) = omega (arith, length-hex_digits ds)

digits_read :
    (ds : Bytes) (capacity : ℕ)
    → IsOctets ds
    → length ds ≤ capacity
    → hex_decode (some (hex_digits ds)) capacity ≡ ok ds
unfolding hex_decode
digits_read ds capacity octets fits =
    let even : (length (hex_digits ds) % 2 == 1) ≡ false = ground (arith, length-hex_digits ds) in
    let holds : ltb capacity (length (hex_digits ds) / 2) ≡ false =
      ground (arith, length-hex_digits ds) in
    rw (even, holds, hex_pairs-hex_digits ds octets) (unfold valid_hex in refl)

-- What hex_encode writes, hex_decode reads back, into a buffer that holds the octets.
pub hex_decode-hex_encode :
    (ds : Bytes) (out_capacity capacity : ℕ) {hex : Bytes}
    → IsOctets ds
    → length ds ≤ capacity
    → hex_encode ds out_capacity ≡ some hex
    → hex_decode (some hex) capacity ≡ ok ds
unfolding hex_encode
hex_decode-hex_encode ds out_capacity capacity {hex} octets fits h =
    elim (Bool-cases (ltb out_capacity (length ds * 2 + 1))) [
      | inl short ↦ cc (rw short at h)
      | inr room ↦
          let written : hex_digits ds ≡ hex = cc (rw room at h) in
          subst (λ t. hex_decode (some t) capacity ≡ ok ds) written
            (digits_read ds capacity octets fits)
    ]
