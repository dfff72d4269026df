-- ===== src/Base/Int.antt =====
-- The integers as C's int and long hold them. `negsuc n` is -(n + 1).
use Prim.Native.Nat.{ℕ, zero, suc, ◌+◌, ◌-◌, ◌*◌, ◌^◌}
use mathlib.Core.Bool.{Bool, true, false, ◌||◌}
use mathlib.Core.List.{[], ◌∷◌}
use mathlib.Core.Option.{Option, none, some}
use esp32_sms_gateway.Base.Tests.{ltb, within, ◌==◌, if◌then◌else◌}
use esp32_sms_gateway.Base.Text.{Bytes, is_digit, peek, next}

pub data ℤ : Type 0 where
  pos : ℕ → ℤ
  negsuc : ℕ → ℤ

-- lo <= z && z <= hi, for bounds that are no negative numbers
abbrev pub in_range : ℕ → ℕ → ℤ → Bool
in_range lo hi (pos n) = within lo hi n
in_range lo hi (negsuc n) = false

-- INT_MAX and LONG_MAX of the ESP32-S3
abbrev pub int_max : ℕ
int_max = 2 ^ 31 - 1

-- isspace
abbrev pub is_space : ℕ → Bool
is_space c = c == b' ' || within 9 13 c

-- The digits in front of a text, as a number, and the text behind them.
unfoldable pub read_digits : ℕ → Bytes → ℕ × Bytes
read_digits acc [] = (acc, [])
read_digits acc (c ∷ s) =
    let rest = read_digits (acc * 10 + (c - b'0')) s in if is_digit c then rest else (acc, c ∷ s)

unfoldable pub skip_isspace : Bytes → Bytes
skip_isspace [] = []
skip_isspace (c ∷ s) = let rest = skip_isspace s in if is_space c then rest else c ∷ s

-- A magnitude and a sign, held to the range of a 32-bit long.
abbrev pub saturate : Bool → ℕ → ℤ
saturate false n = pos (if ltb int_max n then int_max else n)
saturate true zero = pos 0
saturate true (suc n) = negsuc (if ltb int_max n then int_max else n)

abbrev pub signed_digits : Bool → Bytes → Option (ℤ × Bytes)
signed_digits negative s =
    if is_digit (peek s)
    then (let (n, rest) = read_digits 0 s in some (saturate negative n, rest))
    else none

-- strtol(p, &end, 10): `none` is the case end == p, in which nothing was read.
unfoldable pub strtol : Bytes → Option (ℤ × Bytes)
strtol p =
    let s = skip_isspace p in
    if peek s == b'-'
    then signed_digits true (next s)
    else if peek s == b'+'
    then signed_digits false (next s)
    else signed_digits false s
