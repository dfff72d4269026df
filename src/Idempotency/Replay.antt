-- ===== src/Idempotency/Replay.antt =====
-- What a claim and a finalization leave for the requests that follow.
use esp32_sms_gateway.Base.{
  ℕ, ◌+◌, ◌<◌, ◌≡◌, inl, inr, refl, sym, ap, subst, ◌∙◌, Bool, false, not, ◌||◌, none, some, ◌==◌,
  if◌then◌else◌, Bytes, arith, Bool-cases, str_eq_iff, str_eq_refl,
}
use esp32_sms_gateway.Store.Slots.{Outcome, ok, fail, Fetched, missing, unread, found}
use esp32_sms_gateway.Idempotency.{
  IdemRecord, IdemNvs, miss, replay, conflict, max_idem_records, idem_magic, idem_version,
  idem_record_size, equal32, idem_slot_key, held, checked_slot, ClaimScan, claim_start, Scanned,
  at_key, no_key, chosen_slot, reservation, answer,
}
use esp32_sms_gateway.Idempotency.Operations.{
  IdemStore, read_slot, write_slot, locked_hash, scan_slots, lookup, claim, finalize_scanned,
  finalize,
}
use esp32_sms_gateway.Idempotency.Scan.{
  IsPassed, IsTakeable, StopsAt, scan_from-no_key, scan_from-eq-at_key, chosen_slot-IsNoted,
}
use esp32_sms_gateway.Idempotency.Once.{
  IdemNvsLaws, read_slot-write_slot_other, scan_slots-write_slot, claim_scanned-eq-miss,
  claim-eq-miss, lookup-at_key,
}

scan_slots-no_key :
    {S : Type 0} (nvs : IdemNvs S) (s : S) (key_hash : Bytes) {scan : ClaimScan} {chosen : ℕ}
    → scan_slots nvs s key_hash ≡ ok (no_key scan)
    → chosen_slot scan ≡ some chosen
    → ((i : ℕ) → i < max_idem_records → IsPassed key_hash (read_slot nvs s i))
      × (chosen < max_idem_records)
      × IsTakeable (read_slot nvs s chosen)
unfolding scan_slots
scan_slots-no_key nvs s key_hash {scan} {chosen} h choice =
    let (passed, noted) =
      scan_from-no_key (read_slot nvs s) key_hash max_idem_records 0 claim_start (tt, tt) h in
    let (small, takeable) =
      chosen_slot-IsNoted (read_slot nvs s) (0 + max_idem_records) scan noted choice in
    (λ i below. passed i (omega arith) (omega arith), omega arith, takeable)

scan_slots-eq-at_key :
    {S : Type 0} (nvs : IdemNvs S) (s : S) (key_hash : Bytes) {slot : ℕ} {r : IdemRecord}
    → scan_slots nvs s key_hash ≡ ok (at_key slot r)
    → (slot < max_idem_records) × StopsAt (read_slot nvs s) key_hash 0 slot r
unfolding scan_slots
scan_slots-eq-at_key nvs s key_hash h =
    let (low, high, stops) =
      scan_from-eq-at_key (read_slot nvs s) key_hash max_idem_records 0 claim_start h in
    (omega (arith, high), stops)

checked_slot-held :
    (size : ℕ) (q : IdemRecord) {r : IdemRecord}
    → checked_slot (found (size, q)) ≡ held r
    → (r.magic ≡ idem_magic) × (r.version ≡ idem_version)
unfolding checked_slot
checked_slot-held size q {r} h =
    elim (Bool-cases (
      not (size == idem_record_size)
      || not (q.magic == idem_magic)
      || not (q.version == idem_version))) [
        | inl bad ↦ cc (rw bad at h)
        | inr good ↦
            let same : q ≡ r = cc (rw good at h) in
            subst (λ t. (t.magic ≡ idem_magic) × (t.version ≡ idem_version)) same
              (ground arith, ground arith)
      ]

module _ {S : Type 0} (nvs : IdemNvs S) (laws : IdemNvsLaws nvs)
    (sha256 : Bytes → Outcome Bytes) where
  -- What a claim of a key that was not there has done.
  claim_written :
      (st : IdemStore S) (taken : Bool) (key request_hash : Bytes) {s' : S} {id : ℕ}
      → claim nvs sha256 st taken (some key) (some request_hash) ≡ (s', ok (miss, id))
      → (key_hash : Bytes) × (scan : ClaimScan) × (chosen : ℕ) × (locked_hash nvs sha256 st taken
            key
          ≡ ok key_hash)
        × ((i : ℕ) → i < max_idem_records → IsPassed key_hash (read_slot nvs st.nvs_state i))
        × (chosen < max_idem_records)
        × IsTakeable (read_slot nvs st.nvs_state chosen)
        × (write_slot nvs st.nvs_state chosen (reservation scan key_hash request_hash) ≡ (s', none))
  claim_written st taken key request_hash {s'} h =
      let s = st.nvs_state in
      let (key_hash, hashed, scanned) = claim-eq-miss nvs laws sha256 st taken key request_hash h in
      let (scan, chosen, ended, choice, wrote) =
        claim_scanned-eq-miss nvs laws s key_hash request_hash (scan_slots nvs s key_hash)
          scanned in
      let (passed, small, takeable) = scan_slots-no_key nvs s key_hash ended choice in
      (key_hash, scan, chosen, hashed, passed, small, takeable, wrote)

  -- After a claim of a key that was not there, a lookup with the key finds the reservation, with no message
  -- yet: it replays for the same request, and conflicts for another. The storage keeps what nvs.h documents.
  pub lookup-claim :
      (st : IdemStore S) (taken : Bool) (key request_hash another : Bytes) {s' : S} {id : ℕ}
      → claim nvs sha256 st taken (some key) (some request_hash) ≡ (s', ok (miss, id))
      → lookup nvs sha256 (record st { nvs_state = s' }) taken (some key) (some another)
        ≡ ok (if equal32 request_hash another then replay else conflict, 0)
  unfolding locked_hash reservation answer
  lookup-claim st taken key request_hash another {s'} h =
      let (key_hash, scan, chosen, hashed, passed, small, takeable, wrote) =
        claim_written st taken key request_hash h in
      let r = reservation scan key_hash request_hash in
      let finds =
        scan_slots-write_slot nvs laws st.nvs_state chosen r key_hash small
          (λ i below. passed i (omega arith)) refl refl (str_eq_refl key_hash) wrote in
      lookup-at_key nvs laws sha256 (record st { nvs_state = s' }) taken key key_hash another chosen
        r hashed finds

  -- A claim of a key that was not there takes no slot with a reservation that is pending: each of those is
  -- read as before. The storage keeps what nvs.h documents.
  pub claim-pending :
      (st : IdemStore S) (taken : Bool) (key request_hash : Bytes) (slot : ℕ) (r : IdemRecord)
      {s' : S} {id : ℕ}
      → slot < max_idem_records
      → read_slot nvs st.nvs_state slot ≡ held r
      → r.message_id ≡ 0
      → claim nvs sha256 st taken (some key) (some request_hash) ≡ (s', ok (miss, id))
      → read_slot nvs s' slot ≡ held r
  claim-pending st taken key request_hash slot r low holds pending h =
      let s = st.nvs_state in
      let (key_hash, scan, chosen, hashed, passed, small, takeable, wrote) =
        claim_written st taken key request_hash h in
      read_slot-write_slot_other nvs laws s chosen slot (reservation scan key_hash request_hash)
        (omega arith) (omega arith)
        (λ e. absurd (
          subst IsTakeable holds (subst (λ n. IsTakeable (read_slot nvs s n)) (sym e) takeable)
            pending))
        wrote
      ∙ holds

  finalize-eq-none :
      (st : IdemStore S) (taken : Bool) (key request_hash : Bytes) (message_id : ℕ) {s' : S}
      → finalize nvs sha256 st taken (some key) (some request_hash) message_id ≡ (s', none)
      → (key_hash : Bytes) × (locked_hash nvs sha256 st taken key ≡ ok key_hash)
        × (finalize_scanned nvs st.nvs_state request_hash message_id
              (scan_slots nvs st.nvs_state key_hash)
            ≡ (s', none))
  unfolding finalize
  finalize-eq-none st taken key request_hash message_id {s'} h =
      elim (Bool-cases (message_id == 0)) [
        | inl nothing ↦ cc (rw nothing at h)
        | inr some_id ↦ of_hash (locked_hash nvs sha256 st taken key) refl some_id h
      ]
    where
      of_hash :
          (o : Outcome Bytes)
          → locked_hash nvs sha256 st taken key ≡ o
          → (message_id == 0) ≡ false
          → finalize nvs sha256 st taken (some key) (some request_hash) message_id ≡ (s', none)
          → (key_hash : Bytes) × (o ≡ ok key_hash)
            × (finalize_scanned nvs st.nvs_state request_hash message_id
                  (scan_slots nvs st.nvs_state key_hash)
                ≡ (s', none))
      of_hash (fail e) same some_id h1 = cc (rw (some_id, same) at h1)
      of_hash (ok key_hash) same some_id h1 = (key_hash, refl, rw (some_id, same) at h1)

  -- A finalization that went through has found the record of the key, for the same request, and has given it
  -- the id.
  finalize_scanned-eq-none :
      (s : S) (request_hash : Bytes) (message_id : ℕ) (o : Outcome Scanned) {s' : S}
      → finalize_scanned nvs s request_hash message_id o ≡ (s', none)
      → (slot : ℕ) × (r : IdemRecord) × (o ≡ ok (at_key slot r))
        × (r.request_hash ≡ request_hash)
        × (write_slot nvs s slot (record r { message_id = message_id }) ≡ (s', none))
  unfolding finalize_scanned
  finalize_scanned-eq-none s request_hash message_id (fail e) h = cc
  finalize_scanned-eq-none s request_hash message_id (ok (no_key scan)) h = cc
  finalize_scanned-eq-none s request_hash message_id (ok (at_key slot r)) h =
      elim (Bool-cases (equal32 r.request_hash request_hash)) [
        | inl same ↦ (slot, r, refl, (str_eq_iff r.request_hash request_hash).0 same, rw same at h)
        | inr apart ↦ cc (rw apart at h)
      ]

  read_slot-held :
      (s : S) (slot : ℕ) {r : IdemRecord}
      → read_slot nvs s slot ≡ held r
      → (r.magic ≡ idem_magic) × (r.version ≡ idem_version)
  unfolding read_slot
  read_slot-held s slot {r} h = of_fetched (nvs.get_blob s (idem_slot_key slot)) h
    where
      of_fetched :
          (f : Fetched (ℕ × IdemRecord))
          → checked_slot f ≡ held r
          → (r.magic ≡ idem_magic) × (r.version ≡ idem_version)
      of_fetched missing h1 = unfold checked_slot in cc
      of_fetched (unread e) h1 = unfold checked_slot in cc
      of_fetched (found (size, q)) h1 = checked_slot-held size q h1

  -- After a finalization of a key with a message, a lookup with the key finds the id of the message: it
  -- replays for the same request, and conflicts for another. The storage keeps what nvs.h documents.
  pub lookup-finalize :
      (st : IdemStore S) (taken : Bool) (key request_hash another : Bytes) (message_id : ℕ) {s' : S}
      → finalize nvs sha256 st taken (some key) (some request_hash) message_id ≡ (s', none)
      → lookup nvs sha256 (record st { nvs_state = s' }) taken (some key) (some another)
        ≡ ok (if equal32 request_hash another then replay else conflict, message_id)
  unfolding locked_hash answer
  lookup-finalize st taken key request_hash another message_id {s'} h =
      let s = st.nvs_state in
      let (key_hash, hashed, scanned) = finalize-eq-none st taken key request_hash message_id h in
      let (slot, r, stopped, same, wrote) =
        finalize_scanned-eq-none s request_hash message_id (scan_slots nvs s key_hash) scanned in
      let (small, (holds, with_key, passed)) = scan_slots-eq-at_key nvs s key_hash stopped in
      let (magic, version) = read_slot-held s slot holds in
      let r' = record r { message_id = message_id } in
      let finds =
        scan_slots-write_slot nvs laws s slot r' key_hash small
          (λ i below. passed i (omega arith) below) magic version with_key wrote in
      lookup-at_key nvs laws sha256 (record st { nvs_state = s' }) taken key key_hash another slot
        r' hashed finds
      ∙ ap (λ q. ok (if equal32 q another then replay else conflict, message_id)) same
