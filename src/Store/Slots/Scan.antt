-- ===== src/Store/Slots/Scan.antt =====
-- The loops over the slots: where they stop, and when they give the same on two states.
use esp32_sms_gateway.Base.{
  ℕ, zero, suc, ◌+◌, ◌≤◌, ◌<◌, ◌≡◌, refl, sym, subst, Bool, true, false, Option, arith, ◌==◌, ltb,
  Bool-cases, inl, inr, ◌⊎◌,
}
use esp32_sms_gateway.Store.Message.{Message}
use esp32_sms_gateway.Store.Slots.{
  Error, Outcome, ok, fail, Nvs, load_slot, first_round, first_from,
}

-- A reading that a loop passes by.
abbrev pub Skips : (Option Message → Bool) → Outcome (Option Message) → Type 0
Skips p (fail e) = false ≡ true
Skips p (ok o) = p o ≡ false

module _ {S : Type 0} (nvs : Nvs S) (p : Option Message → Bool) where
  -- All slots from `slot` up to `j` are passed by.
  abbrev pub SkipsUpTo : S → ℕ → ℕ → Type 0
  SkipsUpTo s slot j = (i : ℕ) → slot ≤ i → i < j → Skips p (load_slot nvs s i)

  -- What a loop stopped at.
  abbrev pub StopsAt : S → ℕ → ℕ → ℕ → Option Message → Type 0
  StopsAt s slots slot j o =
      (slot ≤ j)
      × (j < slot + slots)
      × (load_slot nvs s j ≡ ok o)
      × (p o ≡ true)
      × SkipsUpTo s slot j

  Skips-more :
      (s : S) (slot j : ℕ)
      → Skips p (load_slot nvs s slot)
      → SkipsUpTo s (suc slot) j
      → SkipsUpTo s slot j
  Skips-more s slot j here later i low high = elim (Bool-cases (i == slot)) [
    | inl same ↦
        let e : i ≡ slot = ground arith in subst (λ n. Skips p (load_slot nvs s n)) (sym e) here
    | inr differ ↦ later i (ground arith) high
  ]

  pub first_from-eq-ok :
      (e0 : Error) (s : S) (slots slot : ℕ) {j : ℕ} {o : Option Message}
      → first_from nvs p e0 s slots slot ≡ ok (j, o)
      → StopsAt s slots slot j o
  unfolding first_from first_round
  first_from-eq-ok e0 s zero slot h = cc
  first_from-eq-ok e0 s (suc slots) slot {j} {o} h =
      by_reading (load_slot nvs s slot) refl h (first_from-eq-ok e0 s slots (suc slot))
    where
      by_reading :
          (x : Outcome (Option Message))
          → load_slot nvs s slot ≡ x
          → first_round p slot x (first_from nvs p e0 s slots (suc slot)) ≡ ok (j, o)
          → (first_from nvs p e0 s slots (suc slot) ≡ ok (j, o) → StopsAt s slots (suc slot) j o)
          → StopsAt s (suc slots) slot j o
      by_reading (fail e) read k ih = cc
      by_reading (ok here) read k ih = elim (Bool-cases (p here)) [
        | inl hit ↦
            let k' : ◌≡◌ {A = Outcome (ℕ × Option Message)} (ok (slot, here)) (ok (j, o)) =
              rw hit at k in
            let at_j : slot ≡ j = cc in
            let with_o : here ≡ o = cc in
            (
              omega (arith, at_j),
              omega (arith, at_j),
              rw (sym at_j, sym with_o) read,
              rw (sym with_o) hit,
              λ i low high. absurd (omega arith),
            )
        | inr miss ↦
            let (low, high, loaded, passes, skipped) = ih (rw miss at k) in
            (omega arith, omega arith, loaded, passes, Skips-more s slot j (rw read miss) skipped)
      ]

  -- A loop that passes the slots before one by stops there.
  pub first_from_stops :
      (e0 : Error) (s : S) (slots slot j : ℕ) (o : Option Message)
      → StopsAt s slots slot j o
      → first_from nvs p e0 s slots slot ≡ ok (j, o)
  unfolding first_from first_round
  first_from_stops e0 s zero slot j o h = absurd (omega (arith, h.0, h.1))
  first_from_stops e0 s (suc slots) slot j o (low, high, loaded, passes, skipped) =
      elim (Bool-cases (slot == j)) [
        | inl same ↦
            let e : slot ≡ j = ground arith in rw (e, loaded) (unfold first_round in rw passes refl)
        | inr differ ↦
            let below : slot < j = ground arith in
            let later =
              first_from_stops e0 s slots (suc slot) j o
                (below, omega arith, loaded, passes, λ i l k. skipped i (omega arith) k) in
            passed (load_slot nvs s slot) (skipped slot (omega arith) below) later
      ]
    where
      passed :
          (x : Outcome (Option Message)) {rest : Outcome (ℕ × Option Message)}
          → Skips p x
          → rest ≡ ok (j, o)
          → first_round p slot x rest ≡ ok (j, o)
      passed (fail e) bad h = cc
      passed (ok here) miss h = rw miss h

  -- A loop that failed has passed by all the slots before one that another loop reached.
  pub first_from-eq-fail :
      (q : Option Message → Bool) (e0 : Error) (s : S) (slots slot j : ℕ) {e : Error}
      → first_from nvs p e0 s slots slot ≡ fail e
      → j ≤ slot + slots
      → ((i : ℕ) → slot ≤ i → i < j → Skips q (load_slot nvs s i))
      → SkipsUpTo s slot j
  unfolding first_from first_round
  first_from-eq-fail q e0 s zero slot j h within others = λ i low high. absurd (omega arith)
  first_from-eq-fail q e0 s (suc slots) slot j {e} h within others =
      elim (Bool-cases (ltb slot j)) [
        | inr past ↦ λ i low high. absurd (ground arith)
        | inl more ↦
            by_reading (load_slot nvs s slot) refl h (others slot (omega arith) (ground arith))
              (λ k.
                first_from-eq-fail q e0 s slots (suc slot) j k (omega arith)
                  (λ i low high. others i (omega arith) high))
      ]
    where
      by_reading :
          (x : Outcome (Option Message))
          → load_slot nvs s slot ≡ x
          → first_round p slot x (first_from nvs p e0 s slots (suc slot)) ≡ fail e
          → Skips q x
          → (first_from nvs p e0 s slots (suc slot) ≡ fail e → SkipsUpTo s (suc slot) j)
          → SkipsUpTo s slot j
      by_reading (fail bad) read k other ih = cc
      by_reading (ok here) read k other ih = elim (Bool-cases (p here)) [
        | inl hit ↦ cc (rw hit at k)
        | inr miss ↦ Skips-more s slot j (rw read miss) (ih (rw miss at k))
      ]

  -- Two states on which each slot reads the same, or is passed by on both.
  abbrev pub Alike : S → S → ℕ → ℕ → Type 0
  Alike s s' slot slots =
      (i : ℕ)
      → slot ≤ i
      → i < slot + slots
      → (load_slot nvs s' i ≡ load_slot nvs s i)
        ⊎ (Skips p (load_slot nvs s i) × Skips p (load_slot nvs s' i))

  pub first_from-Alike :
      (e0 : Error) (s s' : S) (slots slot : ℕ)
      → Alike s s' slot slots
      → first_from nvs p e0 s' slots slot ≡ first_from nvs p e0 s slots slot
  unfolding first_from first_round
  first_from-Alike e0 s s' zero slot h = refl
  first_from-Alike e0 s s' (suc slots) slot h =
      let ih =
        first_from-Alike e0 s s' slots (suc slot) (λ i low high. h i (omega arith) (omega arith)) in
      elim (h slot (omega arith) (omega arith)) [
        | inl same ↦ rw (same, ih) refl
        | inr skips ↦
            rw ih (both_skip (load_slot nvs s slot) (load_slot nvs s' slot) _ skips.0 skips.1)
      ]
    where
      both_skip :
          (x y : Outcome (Option Message)) (rest : Outcome (ℕ × Option Message))
          → Skips p x
          → Skips p y
          → first_round p slot y rest ≡ first_round p slot x rest
      both_skip (ok a) (ok b) rest h k = rw (h, k) refl
      both_skip (fail a) y rest h k = cc
      both_skip (ok a) (fail b) rest h k = cc
