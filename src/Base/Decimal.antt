-- ===== src/Base/Decimal.antt =====
-- Decimal text, as printf's %u writes it, and its reading by strtol.
use Prim.Native.Nat.{ℕ, zero, suc, ◌+◌, ◌-◌, ◌*◌, ◌/◌, ◌%◌, ◌≤◌, ◌<◌}
use mathlib.Core.Bool.{Bool, true, false}
use mathlib.Core.List.{[], ◌∷◌, ◌++◌, append_assoc}
use mathlib.Core.Logic.{inl, inr}
use mathlib.Core.Option.{some}
use mathlib.Core.Path.{◌≡◌, refl, ◌∙◌}
use native.Mathlib.Omega.{arith}
use esp32_sms_gateway.Base.Int.{pos, int_max, read_digits, skip_isspace, strtol, saturate}
use esp32_sms_gateway.Base.Lists.{all}
use esp32_sms_gateway.Base.Tests.{ltb, if◌then◌else◌, Bool-cases}
use esp32_sms_gateway.Base.Text.{Bytes, is_digit, peek}

decimal_fuel : ℕ → ℕ → Bytes
decimal_fuel zero n = []
decimal_fuel (suc f) n =
    let front = decimal_fuel f (n / 10) in
    if ltb n 10 then (b'0' + n) ∷ [] else front ++ (b'0' + n % 10) ∷ []

-- The shortest decimal text of a number.
unfoldable pub decimal : ℕ → Bytes
unfolding decimal_fuel
decimal n = decimal_fuel (suc n) n

all-append :
    (p : ℕ → Bool) (xs ys : Bytes) → all p xs ≡ true → all p ys ≡ true → all p (xs ++ ys) ≡ true
all-append p [] ys h k = k
all-append p (x ∷ xs) ys h k = ground (arith, all-append p xs ys)

decimal_fuel-digits : (f n : ℕ) → all is_digit (decimal_fuel f n) ≡ true
unfolding decimal_fuel
decimal_fuel-digits zero n = refl
decimal_fuel-digits (suc f) n = ground (
  arith,
  all-append is_digit (decimal_fuel f (n / 10)) ((b'0' + n % 10) ∷ []),
  decimal_fuel-digits f (n / 10),
)

pub read_digits-append :
    (acc : ℕ) (xs ys : Bytes)
    → all is_digit xs ≡ true
    → read_digits acc (xs ++ ys) ≡ read_digits (read_digits acc xs).0 ys
unfolding read_digits
read_digits-append acc [] ys h = refl
read_digits-append acc (x ∷ xs) ys h =
    ground (arith, read_digits-append (acc * 10 + (x - b'0')) xs ys)

read_digits-decimal_fuel : (f n : ℕ) → n < f → (read_digits 0 (decimal_fuel f n)).0 ≡ n
unfolding decimal_fuel
read_digits-decimal_fuel zero n h = elim h [ ]
read_digits-decimal_fuel (suc f) n h = elim (Bool-cases (ltb n 10)) [
  | inl small ↦ rw small (unfold read_digits in ground arith)
  | inr large ↦
      rw
        (
          large,
          read_digits-append 0 (decimal_fuel f (n / 10)) ((b'0' + n % 10) ∷ [])
              (decimal_fuel-digits f (n / 10)),
          read_digits-decimal_fuel f (n / 10) (ground arith),
        )
        (unfold read_digits in ground arith)
]

read_digits-stop :
    (acc : ℕ) (rest : Bytes) → is_digit (peek rest) ≡ false → read_digits acc rest ≡ (acc, rest)
unfolding read_digits
read_digits-stop acc [] h = refl
read_digits-stop acc (c ∷ rest) h = rw h

pub read_digits-decimal :
    (n : ℕ) (rest : Bytes)
    → is_digit (peek rest) ≡ false
    → read_digits 0 (decimal n ++ rest) ≡ (n, rest)
unfolding decimal
read_digits-decimal n rest h =
    rw
      (
        read_digits-append 0 (decimal_fuel (suc n) n) rest (decimal_fuel-digits (suc n) n),
        read_digits-decimal_fuel (suc n) n (omega arith),
      )
      (read_digits-stop n rest h)

decimal_fuel_head :
    (f n : ℕ) (rest : Bytes) → n < f → is_digit (peek (decimal_fuel f n ++ rest)) ≡ true
unfolding decimal_fuel
decimal_fuel_head zero n rest h = elim h [ ]
decimal_fuel_head (suc f) n rest h = elim (Bool-cases (ltb n 10)) [
  | inl small ↦ rw small (ground arith)
  | inr large ↦
      rw (large, append_assoc)
        (decimal_fuel_head f (n / 10) ((b'0' + n % 10) ∷ rest) (ground arith))
]

pub decimal_head : (n : ℕ) (rest : Bytes) → is_digit (peek (decimal n ++ rest)) ≡ true
unfolding decimal
decimal_head n rest = decimal_fuel_head (suc n) n rest (omega arith)

skip_isspace_stop : (s : Bytes) → is_digit (peek s) ≡ true → skip_isspace s ≡ s
unfolding skip_isspace
skip_isspace_stop [] h = refl
skip_isspace_stop (c ∷ s) h = ground arith

strtol_digits :
    (s rest : Bytes) (n : ℕ)
    → is_digit (peek s) ≡ true
    → read_digits 0 s ≡ (n, rest)
    → strtol s ≡ some (saturate false n, rest)
unfolding strtol
strtol_digits s rest n h e = rw (skip_isspace_stop s h) (ground arith)

-- strtol reads a number that was printed, if it fits a long, and stops behind it.
pub strtol-decimal :
    (n : ℕ) (rest : Bytes)
    → n ≤ int_max
    → is_digit (peek rest) ≡ false
    → strtol (decimal n ++ rest) ≡ some (pos n, rest)
strtol-decimal n rest fits h =
    strtol_digits (decimal n ++ rest) rest n (decimal_head n rest) (read_digits-decimal n rest h)
    ∙ ground arith
