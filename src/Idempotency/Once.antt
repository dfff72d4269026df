-- ===== src/Idempotency/Once.antt =====
-- What the write of a claim leaves in the slots of the reservations.
use esp32_sms_gateway.Base.{
  ℕ, suc, ◌+◌, ◌-◌, ◌≤◌, ◌<◌, ◌≡◌, ◌≢◌, inl, inr, refl, ap, ◌∙◌, Bool, true, Option, none, some,
  Bytes, arith, Bool-cases,
}
use esp32_sms_gateway.Store.Slots.{Error, Outcome, ok, fail, found}
use esp32_sms_gateway.Store.Slots.Frame.{both-eq-none}
use esp32_sms_gateway.Idempotency.{
  IdemRecord, IdemNvs, miss, max_idem_records, idem_magic, idem_version, idem_record_size, equal32,
  idem_slot_key, held, checked_slot, ClaimScan, claim_start, Scanned, at_key, no_key, scan_from,
  answer, chosen_slot, reservation,
}
use esp32_sms_gateway.Idempotency.Operations.{
  IdemStore, read_slot, write_slot, locked_hash, scan_slots, lookup, reserved_in, claim_scanned,
  claim,
}
use esp32_sms_gateway.Idempotency.Scan.{IsPassed, scan_from-at_key}

-- What nvs.h documents of the calls: a blob that was set is read under its key, with its size, a call that
-- sets one leaves the others theirs, and a commit only makes durable what is read already.
pub record IdemNvsLaws {S : Type 0} (nvs : IdemNvs S) : Type 0 where
  pub set_found :
      (s : S) (key : Bytes) (r : IdemRecord) {s' : S}
      → nvs.set_blob s key r ≡ (s', none)
      → nvs.get_blob s' key ≡ found (idem_record_size, r)
  pub set_other :
      (s : S) (key other_key : Bytes) (r : IdemRecord) {s' : S}
      → other_key ≢ key
      → nvs.set_blob s key r ≡ (s', none)
      → nvs.get_blob s' other_key ≡ nvs.get_blob s other_key
  pub commit_keeps :
      (s : S) (key : Bytes) {s' : S} {e : Option Error}
      → nvs.commit s ≡ (s', e)
      → nvs.get_blob s' key ≡ nvs.get_blob s key

pub idem_slot_key_injective :
    (i j : ℕ) → i < 100 → j < 100 → idem_slot_key i ≡ idem_slot_key j → i ≡ j
unfolding idem_slot_key
idem_slot_key_injective i j h k e = ground arith

module _ {S : Type 0} (nvs : IdemNvs S) (laws : IdemNvsLaws nvs) where
  read_slot-write_slot :
      (s : S) (slot : ℕ) (r : IdemRecord) {s' : S}
      → r.magic ≡ idem_magic
      → r.version ≡ idem_version
      → write_slot nvs s slot r ≡ (s', none)
      → read_slot nvs s' slot ≡ held r
  unfolding read_slot write_slot
  read_slot-write_slot s slot r magic version h =
      let (s1, wrote, kept) = both-eq-none nvs.commit (nvs.set_blob s (idem_slot_key slot) r) h in
      rw
        (
          laws.commit_keeps s1 (idem_slot_key slot) kept,
          laws.set_found s (idem_slot_key slot) r wrote,
        )
        (unfold checked_slot in rw (magic, version) refl)

  pub read_slot-write_slot_other :
      (s : S) (slot i : ℕ) (r : IdemRecord) {s' : S}
      → slot < 100
      → i < 100
      → i ≢ slot
      → write_slot nvs s slot r ≡ (s', none)
      → read_slot nvs s' i ≡ read_slot nvs s i
  unfolding read_slot write_slot
  read_slot-write_slot_other s slot i r slot_small small differ h =
      let (s1, wrote, kept) = both-eq-none nvs.commit (nvs.set_blob s (idem_slot_key slot) r) h in
      let apart : idem_slot_key i ≢ idem_slot_key slot =
        λ (e : idem_slot_key i ≡ idem_slot_key slot).
          differ (idem_slot_key_injective i slot small slot_small e) in
      rw
        (
          laws.commit_keeps s1 (idem_slot_key i) kept,
          laws.set_other s (idem_slot_key slot) (idem_slot_key i) r apart wrote,
        )
        refl

  -- The slots that are passed by before the one that is written, and the record that is written there, are
  -- what the next loop with the key finds.
  pub scan_slots-write_slot :
      (s : S) (slot : ℕ) (r : IdemRecord) (key_hash : Bytes) {s' : S}
      → slot < max_idem_records
      → ((i : ℕ) → i < slot → IsPassed key_hash (read_slot nvs s i))
      → r.magic ≡ idem_magic
      → r.version ≡ idem_version
      → equal32 r.key_hash key_hash ≡ true
      → write_slot nvs s slot r ≡ (s', none)
      → scan_slots nvs s' key_hash ≡ ok (at_key slot r)
  unfolding scan_slots
  scan_slots-write_slot s slot r key_hash {s'} small passed magic version same h =
      let count : max_idem_records ≡ slot + suc (31 - slot) = omega arith in
      let before : (i : ℕ) → 0 ≤ i → i < 0 + slot → IsPassed key_hash (read_slot nvs s' i) =
        λ i low high.
          rw
            (read_slot-write_slot_other s slot i r (omega arith) (omega arith)
              (λ e. absurd (omega (arith, e))) h)
            (passed i (omega arith)) in
      let here : 0 + slot ≡ slot = omega arith in
      ap (λ n. scan_from (read_slot nvs s') key_hash n 0 claim_start) count
      ∙ scan_from-at_key (read_slot nvs s') key_hash slot (31 - slot) 0 claim_start r before
          (rw here (read_slot-write_slot s slot r magic version h)) same
      ∙ ap (λ n. ok (at_key n r)) here

  -- A claim that was not refused and has no answer has written its reservation into a slot that it may take.
  pub claim_scanned-eq-miss :
      (s : S) (key_hash request_hash : Bytes) (o : Outcome Scanned) {s' : S} {id : ℕ}
      → claim_scanned nvs s key_hash request_hash o ≡ (s', ok (miss, id))
      → (scan : ClaimScan) × (chosen : ℕ) × (o ≡ ok (no_key scan))
        × (chosen_slot scan ≡ some chosen)
        × (write_slot nvs s chosen (reservation scan key_hash request_hash) ≡ (s', none))
  unfolding claim_scanned reserved_in answer
  claim_scanned-eq-miss s key_hash request_hash (fail e) h = cc
  claim_scanned-eq-miss s key_hash request_hash (ok (at_key slot r)) h =
      elim (Bool-cases (equal32 r.request_hash request_hash)) [
        | inl same ↦ cc (rw same at h)
        | inr apart ↦ cc (rw apart at h)
      ]
  claim_scanned-eq-miss s key_hash request_hash (ok (no_key scan)) {s'} {id} h =
      of_chosen (chosen_slot scan) refl h
    where
      of_written : (w : S × Option Error) → reserved_in nvs w ≡ (s', ok (miss, id)) → w ≡ (s', none)
      of_written (s1, none) h = cc
      of_written (s1, some e) h = cc

      of_chosen :
          (c : Option ℕ)
          → chosen_slot scan ≡ c
          → claim_scanned nvs s key_hash request_hash (ok (no_key scan)) ≡ (s', ok (miss, id))
          → (scan' : ClaimScan) × (chosen : ℕ) × (ok (no_key scan) ≡ ok (no_key scan'))
            × (chosen_slot scan' ≡ some chosen)
            × (write_slot nvs s chosen (reservation scan' key_hash request_hash) ≡ (s', none))
      of_chosen none e h1 = cc (rw e at h1)
      of_chosen (some chosen) e h1 = (
        scan,
        chosen,
        refl,
        e,
        of_written (write_slot nvs s chosen (reservation scan key_hash request_hash)) (rw e at h1),
      )

  module _ (sha256 : Bytes → Outcome Bytes) where
    pub claim-eq-miss :
        (st : IdemStore S) (taken : Bool) (key request_hash : Bytes) {s' : S} {id : ℕ}
        → claim nvs sha256 st taken (some key) (some request_hash) ≡ (s', ok (miss, id))
        → (key_hash : Bytes) × (locked_hash nvs sha256 st taken key ≡ ok key_hash)
          × (claim_scanned nvs st.nvs_state key_hash request_hash
                (scan_slots nvs st.nvs_state key_hash)
              ≡ (s', ok (miss, id)))
    unfolding claim
    claim-eq-miss st taken key request_hash {s'} {id} h =
        of_hash (locked_hash nvs sha256 st taken key) refl h
      where
        of_hash :
            (o : Outcome Bytes)
            → locked_hash nvs sha256 st taken key ≡ o
            → claim nvs sha256 st taken (some key) (some request_hash) ≡ (s', ok (miss, id))
            → (key_hash : Bytes) × (o ≡ ok key_hash)
              × (claim_scanned nvs st.nvs_state key_hash request_hash
                    (scan_slots nvs st.nvs_state key_hash)
                  ≡ (s', ok (miss, id)))
        of_hash (fail e) same h1 = cc (rw same at h1)
        of_hash (ok key_hash) same h1 = (key_hash, refl, rw same at h1)

    -- What a lookup answers when its loop stops at a record.
    pub lookup-at_key :
        (st : IdemStore S) (taken : Bool) (key key_hash another : Bytes) (slot : ℕ) (r : IdemRecord)
        → locked_hash nvs sha256 st taken key ≡ ok key_hash
        → scan_slots nvs st.nvs_state key_hash ≡ ok (at_key slot r)
        → lookup nvs sha256 st taken (some key) (some another) ≡ ok (answer r another)
    unfolding lookup
    lookup-at_key st taken key key_hash another slot r hashed scanned = rw (hashed, scanned) refl
