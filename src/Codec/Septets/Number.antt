-- ===== src/Codec/Septets/Number.antt =====
-- Octets as one number, the first the least, and the bits of it.
use native.Mathlib.Nat.{
  pow-suc, div-div-eq-div-mul, one-le-pow, div-lt_iff_lt-mul, zero-div, pow-le-pow_right,
}
use native.Mathlib.Numerals.{towards_suc}
use esp32_sms_gateway.Base.{
  ℕ, zero, suc, ◌+◌, ◌*◌, ◌/◌, ◌%◌, ◌^◌, ◌≤◌, ◌<◌, ◌≡◌, refl, sym, ap, ◌∙◌, [], ◌∷◌, length, get_or,
  set, drop, Bytes, arith,
}
use esp32_sms_gateway.Codec.Hex.RoundTrip.{IsOctets}

unfoldable pub number : Bytes → ℕ
number [] = 0
number (b ∷ bs) = b + 256 * number bs

pow_eight : (b : ℕ) → 2 ^ (b + 8) ≡ 256 * 2 ^ b
pow_eight b = simp towards_suc (omega arith)

pub pow_byte : (i : ℕ) → 2 ^ (8 * suc i) ≡ 256 * 2 ^ (8 * i)
pow_byte i = let e : 8 * suc i ≡ 8 * i + 8 = omega arith in rw e (pow_eight (8 * i))

pub pow_add : (a b : ℕ) → 2 ^ (a + b) ≡ 2 ^ b * 2 ^ a
pow_add a zero = let e : a + 0 ≡ a = omega arith in rw e (omega arith)
pow_add a (suc b) =
    let e : a + suc b ≡ suc (a + b) = omega arith in
    rw e (
      omega (
        arith,
        pow-suc 2 (a + b),
        pow-suc 2 b,
        pow_add a b,
        ap (λ (t : ℕ). t * 2 ^ a) (pow-suc 2 b),
      ))

pub pow_septet : (b : ℕ) → 2 ^ (b + 7) ≡ 128 * 2 ^ b
pow_septet b = simp towards_suc (omega arith)

-- A write of an octet.
pub number-set :
    (out : Bytes) (i v : ℕ)
    → i < length out
    → number (set out i v) + get_or out i 0 * 2 ^ (8 * i) ≡ number out + v * 2 ^ (8 * i)
unfolding number
number-set [] i v h = absurd (omega arith)
number-set (b ∷ bs) zero v h = omega arith
number-set (b ∷ bs) (suc i) v h = omega (
  arith,
  number-set bs i v (omega arith),
  ap (λ (t : ℕ). get_or bs i 0 * t) (pow_byte i),
  ap (λ (t : ℕ). v * t) (pow_byte i),
)

-- The octets from one on are what is left of the number.
pub number-drop :
    (out : Bytes) (i : ℕ) → IsOctets out → number (drop i out) ≡ number out / 2 ^ (8 * i)
unfolding number
number-drop [] zero h = refl
number-drop [] (suc i) h = sym (zero-div (2 ^ (8 * suc i)))
number-drop (b ∷ bs) zero h = omega arith
number-drop (b ∷ bs) (suc i) h =
    number-drop bs i h.1
    ∙ ap (λ (t : ℕ). t / 2 ^ (8 * i)) rest
    ∙ div-div-eq-div-mul (b + 256 * number bs) 256 (2 ^ (8 * i))
    ∙ ap (λ (t : ℕ). (b + 256 * number bs) / t) (sym (pow_byte i))
  where
    rest : number bs ≡ (b + 256 * number bs) / 256
    rest = omega (arith, h.0)

pub get_or-number :
    (out : Bytes) (i : ℕ) → IsOctets out → get_or out i 0 ≡ number (drop i out) % 256
unfolding number
get_or-number [] zero h = refl
get_or-number [] (suc i) h = refl
get_or-number (b ∷ bs) zero h = omega (arith, h.0)
get_or-number (b ∷ bs) (suc i) h = get_or-number bs i h.1

pub number_next :
    (out : Bytes) (i : ℕ) → IsOctets out → number (drop (suc i) out) ≡ number (drop i out) / 256
unfolding number
number_next [] zero h = refl
number_next [] (suc i) h = refl
number_next (b ∷ bs) zero h = omega (arith, h.0)
number_next (b ∷ bs) (suc i) h = number_next bs i h.1

pub set-IsOctets : (out : Bytes) (i v : ℕ) → v < 256 → IsOctets out → IsOctets (set out i v)
set-IsOctets [] i v small h = tt
set-IsOctets (b ∷ bs) zero v small h = (small, h.1)
set-IsOctets (b ∷ bs) (suc i) v small h = (h.0, set-IsOctets bs i v small h.1)

pub get_or-set_next :
    (out : Bytes) (i v : ℕ) → get_or (set out i v) (suc i) 0 ≡ get_or out (suc i) 0
get_or-set_next [] i v = refl
get_or-set_next (b ∷ bs) zero v = refl
get_or-set_next (b ∷ bs) (suc i) v = get_or-set_next bs i v

-- A number that ends below a bit leaves the octet of the bit free from there on, and the next empty.
pub free_bits :
    (out : Bytes) (i s : ℕ)
    → IsOctets out
    → s < 8
    → number out < 2 ^ (8 * i + s)
    → (get_or out i 0 < 2 ^ s) × (get_or out (suc i) 0 ≡ 0)
free_bits out i s h small below =
    let rest : number (drop i out) < 2 ^ s = rw (number-drop out i h) (
      (div-lt_iff_lt-mul (one-le-pow (8 * i) 2 (omega arith))).1
        (rw (pow_add (8 * i) s) at below)) in
    let byte : 2 ^ s ≤ 128 = pow_small s small in
    (
      omega (arith, get_or-number out i h),
      omega (arith, get_or-number out (suc i) h, number_next out i h),
    )
  where
    pow_small : (s : ℕ) → s < 8 → 2 ^ s ≤ 128
    pow_small s small = let up : s ≤ 7 = omega arith in pow-le-pow_right (omega arith) up
