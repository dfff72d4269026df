-- ===== src/Ota/SemVer.antt =====
-- Semantic versions of components/ota_service/ota_version_policy.c: parsing and comparison. A slice
-- `pre`, `pre_len` of the text is the list of its bytes, and the slices between dots that the loops over
-- a pre-release visit are the list `identifiers`.
pub mod Order
use esp32_sms_gateway.Base.{
  ℕ, zero, suc, ◌+◌, ◌-◌, ◌*◌, ◌/◌, ◌^◌, Bool, true, false, not, ◌&&◌, ◌||◌, Option, none, some,
  List, [], ◌∷◌, length, all, ltb, ◌==◌, if◌then◌else◌, ◌>>=◌, Bytes, peek, next, is_digit,
  is_alnum,
}

-- The result of a comparison: -1, 0 or 1.
pub data Comparison : Type 0 where
  less equal greater : Comparison

-- semver_t
pub record SemVer : Type 0 where
  pub major : ℕ
  pub minor : ℕ
  pub patch : ℕ
  pub pre : Bytes

-- ULONG_MAX of the ESP32-S3
abbrev pub ulong_max : ℕ
ulong_max = 2 ^ 32 - 1

-- The loop of parse_number.
unfoldable pub number_loop : ℕ → Bytes → Option (ℕ × Bytes)
number_loop out [] = some (out, [])
number_loop out (c ∷ s) =
    let digit = c - b'0' in
    let rest = number_loop (out * 10 + digit) s in
    if not (is_digit c)
    then some (out, c ∷ s)
    else if ltb ((ulong_max - digit) / 10) out
    then none
    else rest

-- parse_number
unfoldable pub parse_number : Bytes → Option (ℕ × Bytes)
unfolding number_loop
parse_number p =
    if not (is_digit (peek p))
    then none
    else if peek p == b'0' && is_digit (peek (next p))
    then none
    else number_loop 0 p

-- valid_identifier_char
abbrev pub valid_identifier_char : ℕ → Bool
valid_identifier_char c = is_alnum c || c == b'-'

-- The slices between the dots, up to where a loop over them stops: a dot at the end starts none.
unfoldable pub identifiers : Bytes → List Bytes
identifiers [] = []
identifiers (c ∷ s) =
    let rest = identifiers s in
    if c == b'.' then [] ∷ rest else elim rest [ [] ↦ (c ∷ []) ∷ [] | i ∷ is ↦ (c ∷ i) ∷ is ]

-- A slice that valid_prerelease_sequence lets pass.
abbrev pub valid_identifier : Bytes → Bool
valid_identifier i = not (length i == 0 || (all is_digit i && ltb 1 (length i) && peek i == b'0'))

-- valid_prerelease_sequence
unfoldable pub valid_prerelease_sequence : Bytes → Bool
unfolding identifiers
valid_prerelease_sequence s = all valid_identifier (identifiers s)

-- The loops of parse_semver over a pre-release and over build metadata, up to a byte that `stop`
-- marks or the end: what was read, what is left, and previous_dot.
unfoldable pub scan : (ℕ → Bool) → Bool → Bytes → Option (Bytes × Bytes × Bool)
scan stop previous_dot [] = some ([], [], previous_dot)
scan stop previous_dot (c ∷ s) =
    let rest = (do (read, left, dot) ← scan stop (c == b'.') s; some (c ∷ read, left, dot)) in
    if stop c
    then some ([], c ∷ s, previous_dot)
    else if c == b'.'
    then (if previous_dot then none else rest)
    else if not (valid_identifier_char c)
    then none
    else rest

-- A part of a version behind its mark: it is not empty, and ends in no dot.
unfoldable pub scan_part : (ℕ → Bool) → Bytes → Option (Bytes × Bytes)
unfolding scan
scan_part stop s = do
  (read, left, dot) ← scan stop true s
  if length read == 0 || dot then none else some (read, left)

-- The pre-release, if a '-' starts one.
unfoldable pub parse_prerelease : Bytes → Option (Bytes × Bytes)
unfolding scan_part valid_prerelease_sequence
parse_prerelease p = if not (peek p == b'-') then some ([], p) else do
  (pre, rest) ← scan_part (λ c. c == b'+') (next p)
  if valid_prerelease_sequence pre then some (pre, rest) else none

-- The build metadata, if a '+' starts one, and then the end of the text.
unfoldable pub parse_build : Bytes → Bool
unfolding scan_part
parse_build p =
    if not (peek p == b'+') then peek p == 0 else elim (scan_part (λ c. false) (next p)) [
      | none ↦ false
      | some (read, rest) ↦ peek rest == 0
    ]

abbrev parse_dot : Bytes → Option Bytes
parse_dot p = if peek p == b'.' then some (next p) else none

-- parse_semver
unfoldable pub parse_semver : Option Bytes → Option SemVer
unfolding parse_number parse_prerelease parse_build
parse_semver none = none
parse_semver (some text) = do
  (major, p1) ← parse_number text
  p2 ← parse_dot p1
  (minor, p3) ← parse_number p2
  p4 ← parse_dot p3
  (patch, p5) ← parse_number p4
  (pre, p6) ← parse_prerelease p5
  if parse_build p6
      then some (record { major = major; minor = minor; patch = patch; pre = pre })
      else none

-- identifier_numeric
unfoldable pub identifier_numeric : Bytes → Bool
identifier_numeric i =
    if length i == 0
    then false
    else if ltb 1 (length i) && peek i == b'0'
    then false
    else all is_digit i

unfoldable pub compare_numbers : ℕ → ℕ → Comparison
compare_numbers a b = if ltb a b then less else if ltb b a then greater else equal

-- The sign of memcmp over as many bytes as both slices have.
unfoldable pub memcmp : Bytes → Bytes → Comparison
memcmp [] b = equal
memcmp (x ∷ a) [] = equal
memcmp (x ∷ a) (y ∷ b) =
    let rest = memcmp a b in if ltb x y then less else if ltb y x then greater else rest

unfoldable pub or_else : Comparison → Comparison → Comparison
or_else equal c = c
or_else less c = less
or_else greater c = greater

-- compare_identifiers
unfoldable pub compare_identifiers : Bytes → Bytes → Comparison
compare_identifiers a b =
    let an = identifier_numeric a in
    let bn = identifier_numeric b in
    if an && bn
    then or_else (compare_numbers (length a) (length b)) (memcmp a b)
    else if an
    then less
    else if bn
    then greater
    else or_else (memcmp a b) (compare_numbers (length a) (length b))

-- The loop of compare_prerelease and what follows it.
unfoldable pub compare_lists : List Bytes → List Bytes → Comparison
compare_lists [] [] = equal
compare_lists (a ∷ as') [] = greater
compare_lists [] (b ∷ bs) = less
compare_lists (a ∷ as') (b ∷ bs) = or_else (compare_identifiers a b) (compare_lists as' bs)

-- compare_prerelease
unfoldable pub compare_prerelease : Bytes → Bytes → Comparison
compare_prerelease [] [] = equal
compare_prerelease [] (y ∷ b) = greater
compare_prerelease (x ∷ a) [] = less
compare_prerelease (x ∷ a) (y ∷ b) = compare_lists (identifiers (x ∷ a)) (identifiers (y ∷ b))

-- The comparison of two parsed versions in ota_semver_compare.
unfoldable pub compare_parsed : SemVer → SemVer → Comparison
compare_parsed a b = or_else (compare_numbers a.major b.major) (
    or_else (compare_numbers a.minor b.minor)
      (or_else (compare_numbers a.patch b.patch) (compare_prerelease a.pre b.pre)))

-- ota_semver_compare
unfoldable pub semver_compare : Option Bytes → Option Bytes → Option Comparison
semver_compare a b = do av ← parse_semver a; bv ← parse_semver b; some (compare_parsed av bv)
