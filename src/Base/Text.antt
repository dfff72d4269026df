-- ===== src/Base/Text.antt =====
-- C strings: the bytes up to, and without, the terminating NUL. A cursor into a string is the rest
-- of it, and the byte at the end of it is the NUL. `strcmp`, `strncmp` with a prefix and the tests
-- of ctype.h are those of the C library in the "C" locale.
use Prim.Native.Char.{code}
use Prim.Native.Nat.{ℕ, ◌-◌, ◌<◌}
use Prim.Native.String.{String}
use mathlib.Core.Bool.{Bool, true, false, ◌&&◌, ◌||◌}
use mathlib.Core.List.{List, [], ◌∷◌, ◌++◌}
use mathlib.Core.Logic.{◌↔◌}
use mathlib.Core.Option.{Option, none, some}
use mathlib.Core.Path.{◌≡◌, refl}
use native.Mathlib.Omega.{arith}
use esp32_sms_gateway.Base.Lists.{All}
use esp32_sms_gateway.Base.Tests.{within, ◌==◌, if◌then◌else◌}

abbrev pub Bytes : Type 0
Bytes = List ℕ

-- The bytes of an ASCII text.
abbrev pub codes : String → Bytes
codes String.[] = []
codes (String.◌∷◌ c s) = code c ∷ codes s

-- A byte of a C string: not the NUL, and below 256.
abbrev pub IsChar : ℕ → Type 0
IsChar c = (0 < c) × (c < 256)

abbrev pub IsText : Bytes → Type 0
IsText = All IsChar

-- *p
abbrev pub peek : Bytes → ℕ
peek [] = 0
peek (c ∷ s) = c

-- p + 1, not moved past the NUL
abbrev pub next : Bytes → Bytes
next [] = []
next (c ∷ s) = s

-- strcmp(a, b) == 0
unfoldable pub str_eq : Bytes → Bytes → Bool
str_eq [] [] = true
str_eq [] (y ∷ ys) = false
str_eq (x ∷ xs) [] = false
str_eq (x ∷ xs) (y ∷ ys) = x == y && str_eq xs ys

pub str_eq_iff : (a b : Bytes) → (str_eq a b ≡ true) ↔ (a ≡ b)
unfolding str_eq
str_eq_iff [] [] = ground arith
str_eq_iff [] (y ∷ ys) = ground arith
str_eq_iff (x ∷ xs) [] = ground arith
str_eq_iff (x ∷ xs) (y ∷ ys) = ground (arith, str_eq_iff xs ys)

pub str_eq_refl : (a : Bytes) → str_eq a a ≡ true
str_eq_refl a = (str_eq_iff a a).1 refl

-- strncmp(line, prefix, strlen(prefix)) == 0, and the text behind the prefix
unfoldable pub strip_prefix : Bytes → Bytes → Option Bytes
strip_prefix [] s = some s
strip_prefix (x ∷ xs) [] = none
strip_prefix (x ∷ xs) (c ∷ s) = if x == c then strip_prefix xs s else none

unfoldable pub has_prefix : Bytes → Bytes → Bool
unfolding strip_prefix
has_prefix line prefix = elim (strip_prefix prefix line) [ none ↦ false | some _ ↦ true ]

pub strip_prefix-append : (p s : Bytes) → strip_prefix p (p ++ s) ≡ some s
unfolding strip_prefix
strip_prefix-append [] s = refl
strip_prefix-append (x ∷ p) s = ground (arith, strip_prefix-append p s)

pub strip_prefix-eq-some : (p s : Bytes) {r : Bytes} → strip_prefix p s ≡ some r → s ≡ p ++ r
unfolding strip_prefix
strip_prefix-eq-some [] s h = ground arith
strip_prefix-eq-some (x ∷ p) [] h = ground arith
strip_prefix-eq-some (x ∷ p) (c ∷ s) {r} h = ground (arith, strip_prefix-eq-some p s {r = r})

-- strchr(s, c) != NULL
unfoldable pub contains : Bytes → ℕ → Bool
contains [] c = false
contains (x ∷ s) c = x == c || contains s c

-- isdigit, isalnum, toupper
abbrev pub is_digit : ℕ → Bool
is_digit c = within b'0' b'9' c

abbrev pub is_lower : ℕ → Bool
is_lower c = within b'a' b'z' c

abbrev pub is_upper : ℕ → Bool
is_upper c = within b'A' b'Z' c

abbrev pub is_alnum : ℕ → Bool
is_alnum c = is_digit c || is_lower c || is_upper c

abbrev pub to_upper : ℕ → ℕ
to_upper c = if is_lower c then c - 32 else c

-- Blanks that the parsers skip: ' ' and '\t'.
unfoldable pub skip_space : Bytes → Bytes
skip_space [] = []
skip_space (c ∷ s) = let rest = skip_space s in if c == b' ' || c == b'\t' then rest else c ∷ s
