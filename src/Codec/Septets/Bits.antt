-- ===== src/Codec/Septets/Bits.antt =====
-- `|` of numbers whose bits do not meet, as a sum.
use Prim.Native.Nat.{bit_or, bit_or-bitwise, digits, max}
use native.Mathlib.Nat.{pow-suc}
use esp32_sms_gateway.Base.{ℕ, zero, suc, ◌+◌, ◌*◌, ◌/◌, ◌^◌, ◌≤◌, ◌<◌, ◌≡◌, ap, arith}

double_pow : (h s : ℕ) → h * 2 ^ suc s ≡ 2 * (h * 2 ^ s)
double_pow h s = omega (arith, ap (λ (t : ℕ). h * t) (pow-suc 2 s))

digits_parted :
    (n a h s : ℕ) → a ≤ n → a < 2 ^ s → digits (λ b. b) max n a (h * 2 ^ s) ≡ a + h * 2 ^ s
digits_parted zero zero h s fits small = omega arith
digits_parted (suc n) zero h s fits small = omega arith
digits_parted n (suc a) h zero fits small = absurd (omega arith)
digits_parted zero (suc a) h (suc s) fits small = absurd (omega arith)
digits_parted (suc n) (suc a) h (suc s) fits small =
    let e = double_pow h s in
    rw e (
      let half : 2 * (h * 2 ^ s) / 2 ≡ h * 2 ^ s = omega arith in
      rw half (
        omega (
          arith,
          pow-suc 2 s,
          digits_parted n (suc a / 2) h s (omega arith) (omega (arith, pow-suc 2 s)),
        )))

-- A number below 2 ^ s, and one shifted to the left by s.
pub bit_or_parted : (a h s : ℕ) → a < 2 ^ s → bit_or a (h * 2 ^ s) ≡ a + h * 2 ^ s
bit_or_parted a h s small =
    omega (arith, bit_or-bitwise a (h * 2 ^ s), digits_parted a a h s (omega arith) small)
