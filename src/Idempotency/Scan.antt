-- ===== src/Idempotency/Scan.antt =====
-- The loop over the slots.
use esp32_sms_gateway.Base.{
  ℕ, zero, suc, ◌+◌, ◌≤◌, ◌<◌, ◌≡◌, ◌≢◌, ◌⊎◌, inl, inr, refl, sym, ap, subst, ◌∙◌, true, false, not,
  ◌&&◌, Option, none, some, ltb, ◌==◌, Bytes, arith, Bool-cases,
}
use esp32_sms_gateway.Store.Slots.{Outcome, ok}
use esp32_sms_gateway.Idempotency.{
  IdemRecord, equal32, Slot, vacant, broken, held, ClaimScan, note_vacant, note_held, Scanned,
  at_key, no_key, or_else, scan_round, scan_from, chosen_slot,
}

-- A slot that the loop passes by.
abbrev pub IsPassed : Bytes → Slot → Type 0
IsPassed key_hash vacant = Unit
IsPassed key_hash (broken e) = ⊥
IsPassed key_hash (held r) = equal32 r.key_hash key_hash ≡ false

-- A slot that a claim may take: there is no reservation in it that is pending.
abbrev pub IsTakeable : Slot → Type 0
IsTakeable vacant = Unit
IsTakeable (broken e) = ⊥
IsTakeable (held r) = r.message_id ≢ 0

-- What a claim has noted are slots before `slot` that it may take.
abbrev pub IsNoted : (ℕ → Slot) → ℕ → Option ℕ → Type 0
IsNoted read slot none = Unit
IsNoted read slot (some i) = (i < slot) × IsTakeable (read i)

abbrev pub IsScan : (ℕ → Slot) → ℕ → ClaimScan → Type 0
IsScan read slot scan =
    IsNoted read slot scan.empty_slot × IsNoted read slot scan.oldest_finalized_slot

IsNoted-later :
    (read : ℕ → Slot) (slot : ℕ) (o : Option ℕ) → IsNoted read slot o → IsNoted read (slot + 1) o
IsNoted-later read slot none h = tt
IsNoted-later read slot (some i) (below, takeable) = (omega arith, takeable)

note_vacant-IsScan :
    (read : ℕ → Slot) (slot : ℕ) (scan : ClaimScan)
    → read slot ≡ vacant
    → IsScan read slot scan
    → IsScan read (slot + 1) (note_vacant slot scan)
unfolding note_vacant
note_vacant-IsScan read slot scan e (empty, oldest) =
    (of_empty scan.empty_slot empty, IsNoted-later read slot scan.oldest_finalized_slot oldest)
  where
    of_empty :
        (o : Option ℕ) → IsNoted read slot o → IsNoted read (slot + 1) (or_else o (some slot))
    of_empty none h = (omega arith, subst IsTakeable (sym e) tt)
    of_empty (some i) h = IsNoted-later read slot (some i) h

note_held-IsScan :
    (read : ℕ → Slot) (slot : ℕ) (r : IdemRecord) (scan : ClaimScan)
    → read slot ≡ held r
    → IsScan read slot scan
    → IsScan read (slot + 1) (note_held slot r scan)
unfolding note_held
note_held-IsScan read slot r scan e (empty, oldest) =
    elim (Bool-cases (not (r.message_id == 0) && ltb r.sequence scan.oldest_sequence)) [
      | inl older ↦
          let final : r.message_id ≢ 0 = λ h. ground arith in
          rw older (
            IsNoted-later read slot scan.empty_slot empty,
            (omega arith, subst IsTakeable (sym e) final),
          )
      | inr not_older ↦ rw not_older (
        IsNoted-later read slot scan.empty_slot empty,
        IsNoted-later read slot scan.oldest_finalized_slot oldest,
      )
    ]

-- A round that goes on.
scan_round-no_key :
    (read : ℕ → Slot) (key_hash : Bytes) (slot : ℕ) (scan : ClaimScan) (o : Slot)
    (rest : ClaimScan → Outcome Scanned) {scan' : ClaimScan}
    → read slot ≡ o
    → IsScan read slot scan
    → scan_round key_hash slot scan o rest ≡ ok (no_key scan')
    → (scan1 : ClaimScan) × IsPassed key_hash o
      × IsScan read (slot + 1) scan1
      × (rest scan1 ≡ ok (no_key scan'))
unfolding scan_round
scan_round-no_key read key_hash slot scan vacant rest e noted h =
    (note_vacant slot scan, tt, note_vacant-IsScan read slot scan e noted, h)
scan_round-no_key read key_hash slot scan (broken error) rest e noted h = cc
scan_round-no_key read key_hash slot scan (held r) rest e noted h =
    elim (Bool-cases (equal32 r.key_hash key_hash)) [
      | inl same ↦ cc (rw same at h)
      | inr other_key ↦ (
        note_held slot r scan,
        other_key,
        note_held-IsScan read slot r scan e noted,
        rw other_key at h,
      )
    ]

-- A loop that has come to the end has passed by every slot, and what it has noted may be taken.
pub scan_from-no_key :
    (read : ℕ → Slot) (key_hash : Bytes) (count slot : ℕ) (scan : ClaimScan) {scan' : ClaimScan}
    → IsScan read slot scan
    → scan_from read key_hash count slot scan ≡ ok (no_key scan')
    → ((i : ℕ) → slot ≤ i → i < slot + count → IsPassed key_hash (read i))
      × IsScan read (slot + count) scan'
unfolding scan_from
scan_from-no_key read key_hash zero slot scan {scan'} noted h =
    let same : scan ≡ scan' = cc in
    let here : slot + 0 ≡ slot = omega arith in
    (λ i low high. absurd (omega arith), rw here (subst (IsScan read slot) same noted))
scan_from-no_key read key_hash (suc count) slot scan {scan'} noted h =
    let (scan1, passed, noted1, h1) =
      scan_round-no_key read key_hash slot scan (read slot)
        (λ s. scan_from read key_hash count (slot + 1) s) refl noted h in
    let (later, noted') = scan_from-no_key read key_hash count (slot + 1) scan1 noted1 h1 in
    let further : slot + 1 + count ≡ slot + suc count = omega arith in
    (
      λ i low high. elim (slot_or_later slot i low) [
        | inl here ↦ subst (λ j. IsPassed key_hash (read j)) here passed
        | inr beyond ↦ later i beyond (omega arith)
      ],
      subst (λ n. IsScan read n scan') further noted',
    )
  where
    slot_or_later : (slot i : ℕ) → slot ≤ i → (slot ≡ i) ⊎ (slot + 1 ≤ i)
    slot_or_later slot i h = elim (Bool-cases (slot == i)) [
      | inl same ↦ inl (ground arith)
      | inr apart ↦ inr (ground arith)
    ]

scan_round-passed :
    (key_hash : Bytes) (slot : ℕ) (scan : ClaimScan) (o : Slot) (rest : ClaimScan → Outcome Scanned)
    → IsPassed key_hash o
    → (scan1 : ClaimScan) × (scan_round key_hash slot scan o rest ≡ rest scan1)
unfolding scan_round
scan_round-passed key_hash slot scan vacant rest h = (note_vacant slot scan, refl)
scan_round-passed key_hash slot scan (broken e) rest h = absurd h
scan_round-passed key_hash slot scan (held r) rest h = (note_held slot r scan, rw h refl)

-- A loop stops at the first slot with the key, `before` slots on, if it passes by all before it.
pub scan_from-at_key :
    (read : ℕ → Slot) (key_hash : Bytes) (before more slot : ℕ) (scan : ClaimScan) (r : IdemRecord)
    → ((i : ℕ) → slot ≤ i → i < slot + before → IsPassed key_hash (read i))
    → read (slot + before) ≡ held r
    → equal32 r.key_hash key_hash ≡ true
    → scan_from read key_hash (before + suc more) slot scan ≡ ok (at_key (slot + before) r)
unfolding scan_from
scan_from-at_key read key_hash zero more slot scan r passed e same =
    let here : slot + 0 ≡ slot = omega arith in
    let e' : read slot ≡ held r = rw here at e in
    let one_left : 0 + suc more ≡ suc more = omega arith in
    unfold scan_round in rw (one_left, here, e', same) refl
scan_from-at_key read key_hash (suc before) more slot scan r passed e same =
    let (scan1, round) =
      scan_round-passed key_hash slot scan (read slot)
        (λ s. scan_from read key_hash (before + suc more) (slot + 1) s)
        (passed slot (omega arith) (omega arith)) in
    let further : slot + 1 + before ≡ slot + suc before = omega arith in
    let counted : suc before + suc more ≡ suc (before + suc more) = omega arith in
    ap (λ n. scan_from read key_hash n slot scan) counted
    ∙ round
    ∙ scan_from-at_key read key_hash before more (slot + 1) scan1 r
        (λ i low high. passed i (omega arith) (omega arith)) (rw further e) same
    ∙ ap (λ n. ok (at_key n r)) further

pub chosen_slot-IsNoted :
    (read : ℕ → Slot) (n : ℕ) (scan : ClaimScan) {i : ℕ}
    → IsScan read n scan
    → chosen_slot scan ≡ some i
    → (i < n) × IsTakeable (read i)
unfolding chosen_slot
chosen_slot-IsNoted read n scan {i} (empty, oldest) h =
    of_noted scan.empty_slot scan.oldest_finalized_slot empty oldest h
  where
    of_noted :
        (o p : Option ℕ)
        → IsNoted read n o
        → IsNoted read n p
        → or_else o p ≡ some i
        → (i < n) × IsTakeable (read i)
    of_noted (some e) p empty oldest h =
        let same : e ≡ i = cc in subst (λ j. (j < n) × IsTakeable (read j)) same empty
    of_noted none (some e) empty oldest h =
        let same : e ≡ i = cc in subst (λ j. (j < n) × IsTakeable (read j)) same oldest
    of_noted none none empty oldest h = cc

-- Where a loop has stopped, `read` holds a record with the key.
abbrev pub StopsAt : (ℕ → Slot) → Bytes → ℕ → ℕ → IdemRecord → Type 0
StopsAt read key_hash start slot r =
    (read slot ≡ held r)
    × (equal32 r.key_hash key_hash ≡ true)
    × ((i : ℕ) → start ≤ i → i < slot → IsPassed key_hash (read i))

scan_round-eq-at_key :
    (read : ℕ → Slot) (key_hash : Bytes) (slot : ℕ) (scan : ClaimScan) (o : Slot)
    (rest : ClaimScan → Outcome Scanned) {stop : ℕ} {r : IdemRecord}
    → scan_round key_hash slot scan o rest ≡ ok (at_key stop r)
    → ((o ≡ held r) × (equal32 r.key_hash key_hash ≡ true) × (slot ≡ stop))
      ⊎ ((scan1 : ClaimScan) × IsPassed key_hash o × (rest scan1 ≡ ok (at_key stop r)))
unfolding scan_round
scan_round-eq-at_key read key_hash slot scan vacant rest h = inr (note_vacant slot scan, tt, h)
scan_round-eq-at_key read key_hash slot scan (broken e) rest h = cc
scan_round-eq-at_key read key_hash slot scan (held q) rest {stop} {r} h =
    elim (Bool-cases (equal32 q.key_hash key_hash)) [
      | inl same ↦
          let record' : q ≡ r = cc (rw same at h) in
          let place : slot ≡ stop = cc (rw same at h) in
          inl (ap held record', subst (λ t. equal32 t.key_hash key_hash ≡ true) record' same, place)
      | inr other_key ↦ inr (note_held slot q scan, other_key, rw other_key at h)
    ]

pub scan_from-eq-at_key :
    (read : ℕ → Slot) (key_hash : Bytes) (count slot : ℕ) (scan : ClaimScan) {stop : ℕ}
    {r : IdemRecord}
    → scan_from read key_hash count slot scan ≡ ok (at_key stop r)
    → (slot ≤ stop) × (stop < slot + count) × StopsAt read key_hash slot stop r
unfolding scan_from
scan_from-eq-at_key read key_hash zero slot scan h = cc
scan_from-eq-at_key read key_hash (suc count) slot scan {stop} {r} h =
    elim (scan_round-eq-at_key read key_hash slot scan (read slot)
      (λ s. scan_from read key_hash count (slot + 1) s) h) [
        | inl (holds, same, place) ↦ (
          omega (arith, place),
          omega (arith, place),
          (
            subst (λ n. read n ≡ held r) place holds,
            same,
            λ i low high. absurd (omega (arith, place)),
          ),
        )
        | inr (scan1, passed, h1) ↦
            let (low, high, (holds, same, before)) =
              scan_from-eq-at_key read key_hash count (slot + 1) scan1 h1 in
            (
              omega (arith, low),
              omega (arith, high),
              (
                holds,
                same,
                λ i from to. elim (Bool-cases (slot == i)) [
                  | inl here ↦
                      let e : slot ≡ i = ground arith in
                      subst (λ j. IsPassed key_hash (read j)) e passed
                  | inr apart ↦ before i (ground arith) to
                ],
              ),
            )
      ]
