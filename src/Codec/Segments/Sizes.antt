-- ===== src/Codec/Segments/Sizes.antt =====
-- The size of the segments of a message, whatever its elements are.
use esp32_sms_gateway.Base.{
  ℕ, zero, suc, ◌≤◌, ◌≡◌, subst, some, List, [], ◌∷◌, length, length-take, take, drop, ◌==◌,
  >>=-eq-some, Bytes, All, arith, Bool-cases, inl, inr,
}
use esp32_sms_gateway.Codec.Segments.{
  max_segments, gsm7_take, ucs2_take, split_by, split_gsm7, split_ucs2,
}

-- As many segments as there are free, of up to `size` elements.
abbrev pub AreSmall : ℕ → ℕ → List Bytes → Type 0
AreSmall size parts segments = All (λ s. length s ≤ size) segments × (length segments ≤ parts)

split_by-AreSmall :
    (taking : Bytes → ℕ) (size parts : ℕ) (s : Bytes) {segments : List Bytes}
    → ((t : Bytes) → taking t ≤ size)
    → split_by taking parts s ≡ some segments
    → AreSmall size parts segments
unfolding split_by
split_by-AreSmall taking size parts [] {segments = []} small h = (tt, omega arith)
split_by-AreSmall taking size parts [] {segments = t ∷ segments} small h = cc
split_by-AreSmall taking size zero (u ∷ units) small h = cc
split_by-AreSmall taking size (suc parts) (u ∷ units) {segments} small h =
    elim (Bool-cases (taking (u ∷ units) == 0)) [
      | inl stuck ↦ cc (rw stuck at h)
      | inr taken ↦
          let n = taking (u ∷ units) in
          let (later, split, same) =
            >>=-eq-some (split_by taking parts (drop n (u ∷ units))) _ (rw taken at h) in
          let (sizes, few) = split_by-AreSmall taking size parts (drop n (u ∷ units)) small split in
          let it : take n (u ∷ units) ∷ later ≡ segments = cc in
          subst (AreSmall size (suc parts)) it (
            (omega (arith, length-take n (u ∷ units), small (u ∷ units)), sizes),
            omega (arith, few),
          )
    ]

pub split_gsm7-AreSmall :
    (septets : Bytes) (per_segment : ℕ) {segments : List Bytes}
    → split_gsm7 septets per_segment ≡ some segments
    → AreSmall per_segment max_segments segments
unfolding split_gsm7 gsm7_take
split_gsm7-AreSmall septets per_segment h =
    split_by-AreSmall (gsm7_take per_segment) per_segment max_segments septets (λ t. ground arith) h

pub split_ucs2-AreSmall :
    (units : Bytes) (per_segment : ℕ) {segments : List Bytes}
    → split_ucs2 units per_segment ≡ some segments
    → AreSmall per_segment max_segments segments
unfolding split_ucs2 ucs2_take
split_ucs2-AreSmall units per_segment h =
    split_by-AreSmall (ucs2_take per_segment) per_segment max_segments units (λ t. ground arith) h
