-- ===== src/Store/Slots/Lowest.antt =====
-- The loops over the slots that look for the oldest record of a kind.
use esp32_sms_gateway.Base.{
  ℕ, zero, suc, ◌+◌, ◌≤◌, ◌<◌, ◌≡◌, refl, subst, Bool, true, ◌&&◌, Option, none, some, arith, ◌==◌,
  ltb, Bool-cases, inl, inr,
}
use esp32_sms_gateway.Store.Message.{Message}
use esp32_sms_gateway.Store.Slots.{Outcome, ok, fail, Nvs, load_slot, lower, lowest_from, and_then}

-- The loop's best is no later than an id; without one, no id that the loop can find has come.
abbrev pub AtMost : Option (ℕ × ℕ) → ℕ → Type 0
AtMost none n = 4294967295 ≤ n
AtMost (some (id, slot)) n = id ≤ n

pub and_then-eq-ok :
    {A B : Type 0} (x : Outcome A) (f : A → Outcome B) {b : B}
    → and_then x f ≡ ok b
    → (a : A) × (x ≡ ok a) × (f a ≡ ok b)
unfolding and_then
and_then-eq-ok (fail e) f h = cc
and_then-eq-ok (ok a) f h = (a, refl, h)

module _ {S : Type 0} (nvs : Nvs S) (p : Message → Bool) where
  -- The best is a record of its slot that passes the test.
  abbrev pub Holds : S → Option (ℕ × ℕ) → Type 0
  Holds s none = 0 ≤ 0
  Holds s (some (id, slot)) =
      (m : Message) × (load_slot nvs s slot ≡ ok (some m)) × (p m ≡ true) × (m.id ≡ id)

  lower-Holds :
      (s : S) (slot : ℕ) (o : Option Message) (best : Option (ℕ × ℕ))
      → load_slot nvs s slot ≡ ok o
      → Holds s best
      → Holds s (lower p slot o best)
  unfolding lower
  lower-Holds s slot none best loaded h = h
  lower-Holds s slot (some m) none loaded h = elim (Bool-cases (p m && ltb m.id 4294967295)) [
    | inl better ↦ rw better (m, loaded, ground arith, refl)
    | inr worse ↦ rw worse h
  ]
  lower-Holds s slot (some m) (some (id, j)) loaded h = elim (Bool-cases (p m && ltb m.id id)) [
    | inl better ↦ rw better (m, loaded, ground arith, refl)
    | inr worse ↦ rw worse h
  ]

  lower-AtMost :
      (slot : ℕ) (o : Option Message) (best : Option (ℕ × ℕ)) (n : ℕ)
      → AtMost best n
      → AtMost (lower p slot o best) n
  unfolding lower
  lower-AtMost slot none best n h = h
  lower-AtMost slot (some m) none n h = elim (Bool-cases (p m && ltb m.id 4294967295)) [
    | inl better ↦ rw better (ground arith)
    | inr worse ↦ rw worse h
  ]
  lower-AtMost slot (some m) (some (id, j)) n h = elim (Bool-cases (p m && ltb m.id id)) [
    | inl better ↦ rw better (ground arith)
    | inr worse ↦ rw worse h
  ]

  lower-AtMost_self :
      (slot : ℕ) (m : Message) (best : Option (ℕ × ℕ))
      → p m ≡ true
      → AtMost (lower p slot (some m) best) m.id
  unfolding lower
  lower-AtMost_self slot m none h = elim (Bool-cases (ltb m.id 4294967295)) [
    | inl better ↦ rw (h, better) (omega arith)
    | inr worse ↦ rw (h, worse) (ground arith)
  ]
  lower-AtMost_self slot m (some (id, j)) h = elim (Bool-cases (ltb m.id id)) [
    | inl better ↦ rw (h, better) (omega arith)
    | inr worse ↦ rw (h, worse) (ground arith)
  ]

  first_round_of :
      (s : S) (slots slot : ℕ) (best : Option (ℕ × ℕ)) {r : Option (ℕ × ℕ)}
      → lowest_from nvs p s (suc slots) slot best ≡ ok r
      → (o : Option Message) × (load_slot nvs s slot ≡ ok o)
        × (lowest_from nvs p s slots (suc slot) (lower p slot o best) ≡ ok r)
  unfolding lowest_from
  first_round_of s slots slot best e =
      and_then-eq-ok (load_slot nvs s slot)
        (λ o. lowest_from nvs p s slots (suc slot) (lower p slot o best)) e

  pub lowest_from-Holds :
      (s : S) (slots slot : ℕ) (best : Option (ℕ × ℕ)) {r : Option (ℕ × ℕ)}
      → Holds s best
      → lowest_from nvs p s slots slot best ≡ ok r
      → Holds s r
  unfolding lowest_from
  lowest_from-Holds s zero slot best {r} h e = let same : best ≡ r = cc in subst (Holds s) same h
  lowest_from-Holds s (suc slots) slot best h e =
      let (o, loaded, rest) = first_round_of s slots slot best e in
      lowest_from-Holds s slots (suc slot) (lower p slot o best)
        (lower-Holds s slot o best loaded h) rest

  -- The slot of the best lies below a bound.
  unfoldable pub Within : ℕ → Option (ℕ × ℕ) → Type 0
  Within bound none = 0 ≤ bound
  Within bound (some (id, slot)) = slot < bound

  lower-Within :
      (bound slot : ℕ) (o : Option Message) (best : Option (ℕ × ℕ))
      → slot < bound
      → Within bound best
      → Within bound (lower p slot o best)
  unfolding lower Within
  lower-Within bound slot none best small h = h
  lower-Within bound slot (some m) none small h = elim (Bool-cases (p m && ltb m.id 4294967295)) [
    | inl better ↦ rw better small
    | inr worse ↦ rw worse h
  ]
  lower-Within bound slot (some m) (some (id, j)) small h = elim (Bool-cases (p m && ltb m.id id)) [
    | inl better ↦ rw better small
    | inr worse ↦ rw worse h
  ]

  pub lowest_from-Within :
      (bound : ℕ) (s : S) (slots slot : ℕ) (best : Option (ℕ × ℕ)) {r : Option (ℕ × ℕ)}
      → slot + slots ≤ bound
      → Within bound best
      → lowest_from nvs p s slots slot best ≡ ok r
      → Within bound r
  unfolding lowest_from
  lowest_from-Within bound s zero slot best {r} fits h e =
      let same : best ≡ r = cc in subst (Within bound) same h
  lowest_from-Within bound s (suc slots) slot best fits h e =
      let (o, loaded, rest) = first_round_of s slots slot best e in
      lowest_from-Within bound s slots (suc slot) (lower p slot o best) (omega arith)
        (lower-Within bound slot o best (omega arith) h) rest

  lowest_from-AtMost :
      (s : S) (slots slot : ℕ) (best : Option (ℕ × ℕ)) (n : ℕ) {r : Option (ℕ × ℕ)}
      → AtMost best n
      → lowest_from nvs p s slots slot best ≡ ok r
      → AtMost r n
  unfolding lowest_from
  lowest_from-AtMost s zero slot best n {r} h e =
      let same : best ≡ r = cc in subst (λ b. AtMost b n) same h
  lowest_from-AtMost s (suc slots) slot best n h e =
      let (o, loaded, rest) = first_round_of s slots slot best e in
      lowest_from-AtMost s slots (suc slot) (lower p slot o best) n (lower-AtMost slot o best n h)
        rest

  -- No record of the slots that passes the test is older than what the loop gives.
  pub lowest_from-AtMost_any :
      (s : S) (slots slot i : ℕ) (best : Option (ℕ × ℕ)) (m : Message) {r : Option (ℕ × ℕ)}
      → slot ≤ i
      → i < slot + slots
      → load_slot nvs s i ≡ ok (some m)
      → p m ≡ true
      → lowest_from nvs p s slots slot best ≡ ok r
      → AtMost r m.id
  unfolding lowest_from
  lowest_from-AtMost_any s zero slot i best m low high loaded passes e = absurd (omega arith)
  lowest_from-AtMost_any s (suc slots) slot i best m low high loaded passes e =
      let (o, here, rest) = first_round_of s slots slot best e in
      elim (Bool-cases (slot == i)) [
        | inl same ↦
            let at_i : slot ≡ i = ground arith in
            let it : o ≡ some m = cc (here, loaded, at_i) in
            lowest_from-AtMost s slots (suc slot) (lower p slot o best) m.id
              (rw it (lower-AtMost_self slot m best passes)) rest
        | inr apart ↦
            lowest_from-AtMost_any s slots (suc slot) i (lower p slot o best) m (ground arith)
              (omega arith) loaded passes rest
      ]
