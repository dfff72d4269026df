-- ===== src/Idempotency/Clear.antt =====
-- What gateway_idempotency_clear_pending leaves.
use esp32_sms_gateway.Base.{
  ℕ, zero, suc, ◌+◌, ◌≤◌, ◌<◌, ◌≡◌, ◌≢◌, inl, inr, refl, sym, ap, subst, ◌∙◌, Bool, Option, none,
  some, ltb, ◌==◌, Bytes, arith, Bool-cases,
}
use esp32_sms_gateway.Store.Slots.{Error, missing}
use esp32_sms_gateway.Idempotency.{
  IdemNvs, max_idem_records, idem_slot_key, Slot, vacant, broken, held, checked_slot,
}
use esp32_sms_gateway.Idempotency.Operations.{IdemStore, read_slot, erase_slot}
use esp32_sms_gateway.Idempotency.Upkeep.{
  clear_erased, clear_slot, clear_from, commit_cleared, clear_pending,
}
use esp32_sms_gateway.Idempotency.Once.{idem_slot_key_injective}

-- What nvs.h documents of erasing a key and of a commit.
pub record EraseLaws {S : Type 0} (nvs : IdemNvs S) : Type 0 where
  pub erase_missing :
      (s : S) (key : Bytes) {s' : S}
      → nvs.erase_key s key ≡ (s', none)
      → nvs.get_blob s' key ≡ missing
  pub erase_other :
      (s : S) (key other_key : Bytes) {s' : S}
      → other_key ≢ key
      → nvs.erase_key s key ≡ (s', none)
      → nvs.get_blob s' other_key ≡ nvs.get_blob s other_key
  pub commit_keeps :
      (s : S) (key : Bytes) {s' : S} {e : Option Error}
      → nvs.commit s ≡ (s', e)
      → nvs.get_blob s' key ≡ nvs.get_blob s key

-- A slot that was read, and in which no reservation is pending.
abbrev pub IsSettled : Slot → Type 0
IsSettled vacant = Unit
IsSettled (broken e) = ⊥
IsSettled (held r) = r.message_id ≢ 0

module _ {S : Type 0} (nvs : IdemNvs S) (laws : EraseLaws nvs) where
  read_slot-erase_slot :
      (s : S) (slot : ℕ) {s' : S}
      → erase_slot nvs s slot ≡ (s', none)
      → read_slot nvs s' slot ≡ vacant
  unfolding read_slot erase_slot checked_slot
  read_slot-erase_slot s slot h = rw (laws.erase_missing s (idem_slot_key slot) h) refl

  read_slot-erase_slot_other :
      (s : S) (slot i : ℕ) {s' : S}
      → slot < 100
      → i < 100
      → i ≢ slot
      → erase_slot nvs s slot ≡ (s', none)
      → read_slot nvs s' i ≡ read_slot nvs s i
  unfolding read_slot erase_slot
  read_slot-erase_slot_other s slot i slot_small small differ h =
      let apart : idem_slot_key i ≢ idem_slot_key slot =
        λ (e : idem_slot_key i ≡ idem_slot_key slot).
          differ (idem_slot_key_injective i slot small slot_small e) in
      rw (laws.erase_other s (idem_slot_key slot) (idem_slot_key i) apart h) refl

  -- What a round of the loop that goes on has made of the storage.
  abbrev Settled : S → ℕ → S → Type 0
  Settled s slot s1 =
      IsSettled (read_slot nvs s1 slot)
      × ((i : ℕ) → i < 100 → i ≢ slot → read_slot nvs s1 i ≡ read_slot nvs s i)

  clear_erased-eq-none :
      (s : S) (slot cleared : ℕ) (rest : S → ℕ → S × ℕ × Option Error) (o : S × Option Error)
      {s' : S} {n : ℕ}
      → slot < 100
      → erase_slot nvs s slot ≡ o
      → clear_erased nvs cleared rest o ≡ (s', n, none)
      → (s1 : S) × (c : ℕ) × (rest s1 c ≡ (s', n, none)) × Settled s slot s1
  unfolding clear_erased
  clear_erased-eq-none s slot cleared rest (s1, some e) small h k = cc
  clear_erased-eq-none s slot cleared rest (s1, none) small h k = (
    s1,
    cleared + 1,
    k,
    (
      subst IsSettled (sym (read_slot-erase_slot s slot h)) tt,
      λ i low differ. read_slot-erase_slot_other s slot i small low differ h,
    ),
  )

  clear_slot-eq-none :
      (s : S) (slot cleared : ℕ) (rest : S → ℕ → S × ℕ × Option Error) (o : Slot) {s' : S} {n : ℕ}
      → slot < 100
      → read_slot nvs s slot ≡ o
      → clear_slot nvs s slot cleared rest o ≡ (s', n, none)
      → (s1 : S) × (c : ℕ) × (rest s1 c ≡ (s', n, none)) × Settled s slot s1
  unfolding clear_slot
  clear_slot-eq-none s slot cleared rest vacant small e h =
      (s, cleared, h, (subst IsSettled (sym e) tt, λ i low differ. refl))
  clear_slot-eq-none s slot cleared rest (broken error) small e h = cc
  clear_slot-eq-none s slot cleared rest (held r) small e h =
      elim (Bool-cases (r.message_id == 0)) [
        | inl pending ↦
            clear_erased-eq-none s slot cleared rest (erase_slot nvs s slot) small refl
              (rw pending at h)
        | inr final ↦
            let some_id : r.message_id ≢ 0 = λ z. ground arith in
            (s, cleared, rw final at h, (subst IsSettled (sym e) some_id, λ i low differ. refl))
      ]

  clear_from-IsSettled :
      (count slot : ℕ) (s : S) (cleared : ℕ) {s' : S} {n : ℕ}
      → slot + count ≤ 100
      → clear_from nvs count slot s cleared ≡ (s', n, none)
      → ((i : ℕ) → slot ≤ i → i < slot + count → IsSettled (read_slot nvs s' i))
        × ((i : ℕ) → i < slot → read_slot nvs s' i ≡ read_slot nvs s i)
  unfolding clear_from
  clear_from-IsSettled zero slot s cleared {s'} small h =
      let same : s ≡ s' = cc in
      (λ i low high. absurd (omega arith), λ i low. ap (λ t. read_slot nvs t i) (sym same))
  clear_from-IsSettled (suc count) slot s cleared {s'} small h =
      let (s1, c, later, (settled, kept)) =
        clear_slot-eq-none s slot cleared (λ t d. clear_from nvs count (slot + 1) t d)
          (read_slot nvs s slot) (omega arith) refl h in
      let (after, before) = clear_from-IsSettled count (slot + 1) s1 c (omega arith) later in
      (
        λ i low high. elim (Bool-cases (slot == i)) [
          | inl here ↦
              let e : slot ≡ i = ground arith in
              subst IsSettled (sym (before i (omega (arith, e))))
                (subst (λ j. IsSettled (read_slot nvs s1 j)) e settled)
          | inr apart ↦ after i (ground arith) (omega arith)
        ],
        λ i low. before i (omega arith) ∙ kept i (omega arith) (λ e. absurd (omega (arith, e))),
      )

  commit_cleared-eq-none :
      (s : S) (cleared : ℕ) (e : Option Error) (i : ℕ) {s' : S} {n : ℕ}
      → commit_cleared nvs (s, cleared, e) ≡ (s', n, none)
      → (e ≡ none) × (read_slot nvs s' i ≡ read_slot nvs s i)
  unfolding commit_cleared read_slot
  commit_cleared-eq-none s cleared (some e) i h = cc
  commit_cleared-eq-none s cleared none i {s'} {n} h = elim (Bool-cases (ltb 0 cleared)) [
    | inl some_ ↦
        let h' : ((nvs.commit s).0, cleared, (nvs.commit s).1) ≡ (s', n, none) = rw some_ at h in
        let committed : nvs.commit s ≡ (s', none) = ap (λ t. (t.0, t.2)) h' in
        (refl, ap checked_slot (laws.commit_keeps s (idem_slot_key i) committed))
    | inr none_ ↦
        let h' : (s, cleared, none) ≡ (s', n, none) = rw none_ at h in
        (refl, ap (λ t. read_slot nvs t.0 i) (sym h'))
  ]

  -- After pending reservations were cleared without an error, no slot holds one: each is vacant or has a
  -- message. The storage keeps what nvs.h documents of erasing.
  pub clear_pending-IsSettled :
      (st : IdemStore S) (taken : Bool) (i : ℕ) {s' : S} {n : ℕ}
      → i < max_idem_records
      → clear_pending nvs st taken ≡ (s', n, none)
      → IsSettled (read_slot nvs s' i)
  unfolding clear_pending
  clear_pending-IsSettled st taken i {s'} {n} small h = elim (Bool-cases st.initialized) [
    | inr closed ↦ cc (rw closed at h)
    | inl open' ↦ elim (Bool-cases taken) [
      | inr late ↦ cc (rw (open', late) at h)
      | inl in_time ↦
          of_loop (clear_from nvs max_idem_records 0 st.nvs_state 0) refl (rw (open', in_time) at h)
    ]
  ]
    where
      of_loop :
          (w : S × ℕ × Option Error)
          → clear_from nvs max_idem_records 0 st.nvs_state 0 ≡ w
          → commit_cleared nvs w ≡ (s', n, none)
          → IsSettled (read_slot nvs s' i)
      of_loop (s1, cleared, e) loop k =
          let (went, same) = commit_cleared-eq-none s1 cleared e i k in
          let (settled, before) =
            clear_from-IsSettled max_idem_records 0 st.nvs_state 0 (omega arith)
              (loop ∙ ap (λ t. (s1, cleared, t)) went) in
          subst IsSettled (sym same) (settled i (omega arith) (omega (arith, small)))
