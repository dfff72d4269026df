-- ===== src/Ota/SemVer/Order.antt =====
-- Comparing versions is antisymmetric, and equal on equals.
use esp32_sms_gateway.Base.{
  ℕ, ◌≡◌, refl, ap, Option, none, some, List, [], ◌∷◌, length, Bytes, arith, ◌>>=◌, ◌↔◌, ◌⊎◌, inl,
  inr,
}
use esp32_sms_gateway.Ota.SemVer.{
  Comparison, less, equal, greater, SemVer, identifiers, compare_numbers, memcmp, or_else,
  compare_identifiers, compare_lists, compare_prerelease, parse_semver, compare_parsed,
  semver_compare,
}

-- The comparison of two things, the other way round.
abbrev pub flip : Comparison → Comparison
flip less = greater
flip equal = equal
flip greater = less

abbrev pub flip_result : Option Comparison → Option Comparison
flip_result none = none
flip_result (some c) = some (flip c)

flip-compare_numbers : (a b : ℕ) → compare_numbers b a ≡ flip (compare_numbers a b)
unfolding compare_numbers
flip-compare_numbers a b = ground arith

flip-or_else : (c d : Comparison) → flip (or_else c d) ≡ or_else (flip c) (flip d)
unfolding or_else
flip-or_else less d = refl
flip-or_else equal d = refl
flip-or_else greater d = refl

flip-memcmp : (a b : Bytes) → memcmp b a ≡ flip (memcmp a b)
unfolding memcmp
flip-memcmp [] [] = refl
flip-memcmp [] (y ∷ b) = refl
flip-memcmp (x ∷ a) [] = refl
flip-memcmp (x ∷ a) (y ∷ b) = ground (arith, flip-memcmp a b)

flip-compare_identifiers : (a b : Bytes) → compare_identifiers b a ≡ flip (compare_identifiers a b)
flip-compare_identifiers a b =
    unfold compare_identifiers or_else in
    ground (arith, flip-memcmp a b, flip-compare_numbers (length a) (length b))

flip-compare_lists : (a b : List Bytes) → compare_lists b a ≡ flip (compare_lists a b)
unfolding compare_lists
flip-compare_lists [] [] = refl
flip-compare_lists [] (y ∷ b) = refl
flip-compare_lists (x ∷ a) [] = refl
flip-compare_lists (x ∷ a) (y ∷ b) =
    rw (flip-compare_identifiers x y, flip-compare_lists a b, flip-or_else)

flip-compare_prerelease : (a b : Bytes) → compare_prerelease b a ≡ flip (compare_prerelease a b)
flip-compare_prerelease [] [] = unfold compare_prerelease in refl
flip-compare_prerelease [] (y ∷ b) = unfold compare_prerelease in refl
flip-compare_prerelease (x ∷ a) [] = unfold compare_prerelease in refl
flip-compare_prerelease (x ∷ a) (y ∷ b) =
    unfold compare_prerelease in flip-compare_lists (identifiers (x ∷ a)) (identifiers (y ∷ b))

flip-compare_parsed : (a b : SemVer) → compare_parsed b a ≡ flip (compare_parsed a b)
unfolding compare_parsed
flip-compare_parsed a b = rw (
  flip-or_else,
  flip-or_else,
  flip-or_else,
  flip-compare_numbers a.major b.major,
  flip-compare_numbers a.minor b.minor,
  flip-compare_numbers a.patch b.patch,
  flip-compare_prerelease a.pre b.pre,
)

pub flip-semver_compare :
    (a b : Option Bytes) → semver_compare b a ≡ flip_result (semver_compare a b)
unfolding semver_compare
flip-semver_compare a b = by_parse (parse_semver a) (parse_semver b)
  where
    by_parse :
        (m n : Option SemVer)
        → (n >>= λ bv. m >>= λ av. some (compare_parsed bv av))
          ≡ flip_result (m >>= λ av. n >>= λ bv. some (compare_parsed av bv))
    by_parse none none = refl
    by_parse none (some bv) = refl
    by_parse (some av) none = refl
    by_parse (some av) (some bv) = ap some (flip-compare_parsed av bv)

-- Swapping the versions swaps the answer, less for greater and equal for equal, and there is no answer
-- exactly if one of the two texts is no version.
pub semver_compare_lem :
    (a b : Option Bytes)
    → (semver_compare b a ≡ flip_result (semver_compare a b))
      × ((semver_compare a b ≡ none) ↔ ((parse_semver a ≡ none) ⊎ (parse_semver b ≡ none)))
unfolding semver_compare
semver_compare_lem a b = (flip-semver_compare a b, by_parse (parse_semver a) (parse_semver b))
  where
    by_parse :
        (m n : Option SemVer)
        → ((m >>= λ av. n >>= λ bv. some (compare_parsed av bv)) ≡ none) ↔ ((m ≡ none) ⊎ (n ≡ none))
    by_parse none n = (λ e. inl refl, λ e. refl)
    by_parse (some av) none = (λ e. inr refl, λ e. refl)
    by_parse (some av) (some bv) = (λ e. cc, λ e. elim e [ inl h ↦ cc | inr h ↦ cc ])

compare_numbers_refl : (n : ℕ) → compare_numbers n n ≡ equal
unfolding compare_numbers
compare_numbers_refl n = ground arith

memcmp_refl : (a : Bytes) → memcmp a a ≡ equal
unfolding memcmp
memcmp_refl [] = refl
memcmp_refl (x ∷ a) = ground (arith, memcmp_refl a)

compare_identifiers_refl : (a : Bytes) → compare_identifiers a a ≡ equal
unfolding compare_identifiers or_else
compare_identifiers_refl a = ground (arith, memcmp_refl a, compare_numbers_refl (length a))

compare_lists_refl : (a : List Bytes) → compare_lists a a ≡ equal
unfolding compare_lists or_else
compare_lists_refl [] = refl
compare_lists_refl (x ∷ a) = rw (compare_identifiers_refl x) (compare_lists_refl a)

compare_prerelease_refl : (a : Bytes) → compare_prerelease a a ≡ equal
unfolding compare_prerelease
compare_prerelease_refl [] = refl
compare_prerelease_refl (x ∷ a) = compare_lists_refl (identifiers (x ∷ a))

compare_parsed_refl : (a : SemVer) → compare_parsed a a ≡ equal
unfolding compare_parsed or_else
compare_parsed_refl a =
    rw (compare_numbers_refl a.major, compare_numbers_refl a.minor, compare_numbers_refl a.patch)
      (compare_prerelease_refl a.pre)

-- A text that is a version is equal to itself.
pub semver_compare_refl :
    (a : Option Bytes) {v : SemVer} → parse_semver a ≡ some v → semver_compare a a ≡ some equal
unfolding semver_compare
semver_compare_refl a {v} h = rw h (ap some (compare_parsed_refl v))
