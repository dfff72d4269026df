-- ===== src/Codec/Gsm7/Tables.antt =====
-- The search in the tables of the alphabet, and the lookup that undoes it.
use esp32_sms_gateway.Base.{
  ℕ, suc, ◌+◌, ◌-◌, ◌<◌, ◌≤◌, ◌%◌, ◌≡◌, ◌≢◌, refl, false, Option, none, some, List, [], ◌∷◌, ◌++◌,
  length, get_or, Bytes, arith, Bool-cases, not, ◌&&◌, ◌⊎◌, inl, inr, ◌==◌, ==_ne, ◌>>=◌,
}
use native.Mathlib.Nat.{sub-zero}
use esp32_sms_gateway.Codec.Utf8.{utf8_append}
use esp32_sms_gateway.Codec.Gsm7.{
  gsm7_basic, gsm7_extension, escape_septet, find_basic, find_extension, gsm7_find,
  extension_decode, decode_from,
}

find_basic_lem :
    (table : List ℕ) (i cp : ℕ) {j : ℕ}
    → find_basic i table cp ≡ some j
    → (i ≤ j) × (j < i + length table) × (j ≢ escape_septet) × (get_or table (j - i) 0 ≡ cp)
unfolding find_basic
find_basic_lem [] i cp h = ground arith
find_basic_lem (t ∷ table) i cp {j} h = elim (Bool-cases (not (i == escape_septet) && t == cp)) [
  | inl here ↦
      let same : i ≡ j = ground (arith, h) in
      (omega arith, omega arith, ground arith, rw (zero_at same) (ground arith))
  | inr later ↦
      let (low, high, ne, at) = find_basic_lem table (i + 1) cp {j = j} (rw later at h) in
      (omega arith, omega arith, ne, rw (suc_at low) at)
]
  where
    zero_at : i ≡ j → j - i ≡ 0
    zero_at e = omega arith

    suc_at : i + 1 ≤ j → j - i ≡ suc (j - (i + 1))
    suc_at l = omega arith

find_extension_lem :
    (cp : ℕ) {e : ℕ}
    → find_extension gsm7_extension cp ≡ some e
    → extension_decode gsm7_extension e ≡ some cp
unfolding find_extension extension_decode gsm7_extension
find_extension_lem cp h = ground arith

gsm7_find_lem :
    (cp : ℕ) {septets : Bytes}
    → gsm7_find cp ≡ some septets
    → ((i : ℕ) × (septets ≡ i ∷ [])
        × (i < 128)
        × (i ≢ escape_septet)
        × (get_or gsm7_basic i 0 ≡ cp))
      ⊎ ((e : ℕ) × (septets ≡ escape_septet ∷ e ∷ [])
          × (extension_decode gsm7_extension e ≡ some cp))
unfolding gsm7_find
gsm7_find_lem cp {septets} h = by_basic (find_basic 0 gsm7_basic cp) refl
  where
    by_extension :
        (o : Option ℕ)
        → find_extension gsm7_extension cp ≡ o
        → find_basic 0 gsm7_basic cp ≡ none
        → (e : ℕ) × (septets ≡ escape_septet ∷ e ∷ [])
          × (extension_decode gsm7_extension e ≡ some cp)
    by_extension none m n = ground arith
    by_extension (some e) m n = (e, ground arith, find_extension_lem cp m)

    by_basic :
        (o : Option ℕ)
        → find_basic 0 gsm7_basic cp ≡ o
        → ((i : ℕ) × (septets ≡ i ∷ [])
            × (i < 128)
            × (i ≢ escape_septet)
            × (get_or gsm7_basic i 0 ≡ cp))
          ⊎ ((e : ℕ) × (septets ≡ escape_septet ∷ e ∷ [])
              × (extension_decode gsm7_extension e ≡ some cp))
    by_basic none m = inr (by_extension (find_extension gsm7_extension cp) refl m)
    by_basic (some i) m =
        let (_, high, ne, at) = find_basic_lem gsm7_basic 0 cp m in
        inl (i, ground arith, unfold gsm7_basic in omega arith, ne, rw sub-zero at at)

mod_128 : (i : ℕ) → i < 128 → i % 128 ≡ i
mod_128 i h = omega arith

-- What gsm7_find writes is read back as the same code point, whatever follows.
pub decode_from-gsm7_find :
    (cp : ℕ) {septets : Bytes} (capacity : ℕ) (rest buffer : Bytes)
    → gsm7_find cp ≡ some septets
    → decode_from false capacity (septets ++ rest) buffer
      ≡ (utf8_append cp capacity buffer >>= decode_from false capacity rest)
unfolding decode_from
decode_from-gsm7_find cp capacity rest buffer h = elim (gsm7_find_lem cp h) [
  | inl (i, one, low, ne, at) ↦ rw (one, ==_ne i escape_septet ne, mod_128 i low, at)
  | inr (e, two, decoded) ↦ rw (two, decoded)
]
