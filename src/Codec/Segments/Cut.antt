-- ===== src/Codec/Segments/Cut.antt =====
-- The segments of a message are its slices.
use esp32_sms_gateway.Base.{
  ℕ, zero, suc, ◌-◌, ◌≤◌, ◌<◌, ◌≡◌, ◌⊎◌, inl, inr, refl, ap, ◌∙◌, Bool, true, false, not, ◌&&◌,
  some, List, [], ◌∷◌, ◌++◌, length, length-take, subst, get_or, take, drop, take-append-drop, ltb,
  ◌==◌, >>=-eq-some, Bytes, All, arith, Bool-cases,
}
use esp32_sms_gateway.Codec.Segments.{max_segments, gsm7_take, split_by, split_gsm7}

abbrev pub flatten : List Bytes → Bytes
flatten [] = []
flatten (s ∷ segments) = s ++ flatten segments

-- No opening element (an escape, a high surrogate) stands at the end or before another one; the flag is
-- set behind an opening element.
abbrev pub closed : (ℕ → Bool) → Bool → Bytes → Bool
closed opens open' [] = not open'
closed opens open' (x ∷ s) = not (open' && opens x) && closed opens (opens x) s

-- A segment of up to `per_segment` elements, not empty, and with no opening element torn from its next.
abbrev pub IsSegment : ℕ → (ℕ → Bool) → Bytes → Type 0
IsSegment per_segment opens s =
    (0 < length s) × (length s ≤ per_segment) × (closed opens false s ≡ true)

closed-take :
    (opens : ℕ → Bool) (open' : Bool) (s : Bytes) (n : ℕ)
    → n < length s
    → opens (get_or s n 0) ≡ false
    → closed opens open' s ≡ true
    → (closed opens open' (take (suc n) s) ≡ true) × (closed opens false (drop (suc n) s) ≡ true)
closed-take opens open' [] n h e c = absurd (omega arith)
closed-take opens open' (x ∷ s) zero h e c = ground arith
closed-take opens open' (x ∷ s) (suc n) h e c =
    let (front, back) = closed-take opens (opens x) s n (omega arith) e (ground arith) in
    (ground (arith, front), back)

-- Behind an opening element stands one that is not.
closed-next :
    (opens : ℕ → Bool) (open' : Bool) (s : Bytes) (n : ℕ)
    → suc n < length s
    → opens (get_or s (suc n) 0) ≡ true
    → closed opens open' s ≡ true
    → opens (get_or s n 0) ≡ false
closed-next opens open' [] n h e c = absurd (omega arith)
closed-next opens open' (x ∷ []) n h e c = absurd (omega arith)
closed-next opens open' (x ∷ y ∷ s) zero h e c = ground arith
closed-next opens open' (x ∷ y ∷ s) (suc n) h e c =
    closed-next opens (opens x) (y ∷ s) n (omega arith) e (ground arith)

-- Where a loop may cut what is left.
abbrev pub Cuts : ℕ → (ℕ → Bool) → (Bytes → ℕ) → Type 0
Cuts per_segment opens taking =
    (s : Bytes)
    → closed opens false s ≡ true
    → (taking s ≤ per_segment)
      × (taking s ≤ length s)
      × ((taking s ≡ 0) ⊎ ((taking s ≡ length s) ⊎ (opens (get_or s (taking s - 1) 0) ≡ false)))

take-length : (s : Bytes) → take (length s) s ≡ s
take-length [] = refl
take-length (x ∷ s) = ap (λ t. x ∷ t) (take-length s)

drop-length : (s : Bytes) → drop (length s) s ≡ []
drop-length [] = refl
drop-length (x ∷ s) = drop-length s

cut_closed :
    (opens : ℕ → Bool) (s : Bytes) (n : ℕ)
    → 0 < n
    → n ≤ length s
    → (n ≡ length s) ⊎ (opens (get_or s (n - 1) 0) ≡ false)
    → closed opens false s ≡ true
    → (closed opens false (take n s) ≡ true) × (closed opens false (drop n s) ≡ true)
cut_closed opens s zero some_taken within' cut c = absurd (omega arith)
cut_closed opens s (suc n) some_taken within' (inl all_of_it) c =
    rw (all_of_it, take-length s, drop-length s) (c, refl)
cut_closed opens s (suc n) some_taken within' (inr clean) c =
    let same : suc n - 1 ≡ n = omega arith in
    closed-take opens false s n (omega arith) (rw same at clean) c

module _ (per_segment : ℕ) (opens : ℕ → Bool) (taking : Bytes → ℕ)
    (cuts : Cuts per_segment opens taking) where
  cut :
      (s : Bytes)
      → closed opens false s ≡ true
      → (taking s == 0) ≡ false
      → IsSegment per_segment opens (take (taking s) s)
        × (closed opens false (drop (taking s) s) ≡ true)
  cut s c taken =
      let (few, within', where_) = cuts s c in
      let positive : 0 < taking s = ground arith in
      let (front, back) = cut_closed opens s (taking s) positive within' (by_place where_) c in
      (
        (
          omega (arith, length-take (taking s) s, positive, within'),
          omega (arith, length-take (taking s) s, few),
          front,
        ),
        back,
      )
    where
      by_place :
          (taking s ≡ 0) ⊎ ((taking s ≡ length s) ⊎ (opens (get_or s (taking s - 1) 0) ≡ false))
          → (taking s ≡ length s) ⊎ (opens (get_or s (taking s - 1) 0) ≡ false)
      by_place (inl nothing) = ground arith
      by_place (inr place) = place

  pub split_by-IsSegment :
      (parts : ℕ) (s : Bytes) {segments : List Bytes}
      → closed opens false s ≡ true
      → split_by taking parts s ≡ some segments
      → (flatten segments ≡ s)
        × All (IsSegment per_segment opens) segments
        × (length segments ≤ parts)
  unfolding split_by
  split_by-IsSegment parts [] {segments = []} c h = (refl, tt, omega arith)
  split_by-IsSegment parts [] {segments = t ∷ segments} c h = cc
  split_by-IsSegment zero (u ∷ units) c h = cc
  split_by-IsSegment (suc parts) (u ∷ units) {segments} c h =
      elim (Bool-cases (taking (u ∷ units) == 0)) [
        | inl stuck ↦ cc (rw stuck at h)
        | inr taken ↦
            let n = taking (u ∷ units) in
            let (later, split, same) =
              >>=-eq-some (split_by taking parts (drop n (u ∷ units))) _ (rw taken at h) in
            let (first, rest) = cut (u ∷ units) c taken in
            let (flat, are, few) = split_by-IsSegment parts (drop n (u ∷ units)) rest split in
            let it : take n (u ∷ units) ∷ later ≡ segments = cc in
            subst
              (λ l.
                (flatten l ≡ u ∷ units)
                × All (IsSegment per_segment opens) l
                × (length l ≤ suc parts))
              it
              (
                ap (λ r. take n (u ∷ units) ++ r) flat ∙ take-append-drop n (u ∷ units),
                (first, are),
                omega (arith, few),
              )
      ]

before_opening :
    (opens : ℕ → Bool) (s : Bytes) (n : ℕ)
    → 0 < n
    → n < length s
    → opens (get_or s (n - 1) 0) ≡ true
    → closed opens false s ≡ true
    → (n - 1 ≡ 0) ⊎ (opens (get_or s (n - 1 - 1) 0) ≡ false)
before_opening opens s zero positive h e c = absurd (omega arith)
before_opening opens s (suc zero) positive h e c = inl refl
before_opening opens s (suc (suc n)) positive h e c =
    let one : suc (suc n) - 1 ≡ suc n = omega arith in
    let two : suc (suc n) - 1 - 1 ≡ n = omega arith in
    inr (rw two (closed-next opens false s n (omega arith) (rw one at e) c))

stepped_back :
    (opens : ℕ → Bool) (s : Bytes) (n : ℕ)
    → 0 < n
    → n < length s
    → opens (get_or s (n - 1) 0) ≡ true
    → closed opens false s ≡ true
    → (n - 1 ≤ n)
      × (n - 1 ≤ length s)
      × ((n - 1 ≡ 0) ⊎ ((n - 1 ≡ length s) ⊎ (opens (get_or s (n - 1 - 1) 0) ≡ false)))
stepped_back opens s n positive h e c =
    (omega arith, omega arith, place (before_opening opens s n positive h e c))
  where
    place :
        (n - 1 ≡ 0) ⊎ (opens (get_or s (n - 1 - 1) 0) ≡ false)
        → (n - 1 ≡ 0) ⊎ ((n - 1 ≡ length s) ⊎ (opens (get_or s (n - 1 - 1) 0) ≡ false))
    place (inl nothing) = inl nothing
    place (inr clean) = inr (inr clean)

gsm7_take-Cuts : (per_segment : ℕ) → Cuts per_segment (λ x. x == 0x1B) (gsm7_take per_segment)
unfolding gsm7_take
gsm7_take-Cuts per_segment s c = elim (Bool-cases (ltb per_segment (length s))) [
  | inr all_of_it ↦ rw all_of_it (ground arith)
  | inl more ↦ elim (Bool-cases (ltb 0 per_segment && get_or s (per_segment - 1) 0 == 0x1B)) [
    | inr clean ↦ rw (more, clean) (ground arith)
    | inl escape ↦
        rw (more, escape)
          (stepped_back (λ x. x == 0x1B) s per_segment (ground arith) (ground arith) (ground arith)
            c)
  ]
]

-- The escape pairs of a text stay together: its segments are its slices, none is empty or too long, and
-- none ends in the middle of a pair.
pub split_gsm7_lem :
    (septets : Bytes) (per_segment : ℕ) {segments : List Bytes}
    → closed (λ x. x == 0x1B) false septets ≡ true
    → split_gsm7 septets per_segment ≡ some segments
    → (flatten segments ≡ septets)
      × All (IsSegment per_segment (λ x. x == 0x1B)) segments
      × (length segments ≤ max_segments)
unfolding split_gsm7
split_gsm7_lem septets per_segment c h =
    split_by-IsSegment per_segment (λ x. x == 0x1B) (gsm7_take per_segment)
      (gsm7_take-Cuts per_segment) max_segments septets c h
