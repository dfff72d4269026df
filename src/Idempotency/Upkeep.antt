-- ===== src/Idempotency/Upkeep.antt =====
-- The operations of components/api_idempotency/api_idempotency.c beside those of a request: diagnostics, clearing,
-- initialisation and the fingerprint of a message.
use esp32_sms_gateway.Base.{
  ℕ, zero, suc, ◌+◌, ◌-◌, Bool, true, not, Option, none, some, ◌∷◌, [], ◌++◌, ltb, ◌==◌,
  if◌then◌else◌, Bytes, length,
}
use esp32_sms_gateway.Store.Slots.{
  Error, invalid_arg, invalid_state, no_mem, other, Outcome, ok, fail, and_then,
}
use esp32_sms_gateway.Idempotency.{
  IdemNvs, IdempotencyDiagnostics, max_idem_records, Slot, vacant, broken, held,
}
use esp32_sms_gateway.Idempotency.Operations.{IdemStore, timeout, read_slot, erase_slot}

module _ {S : Type 0} (nvs : IdemNvs S) where
  unfoldable pub count_slot : Slot → IdempotencyDiagnostics → Outcome IdempotencyDiagnostics
  count_slot vacant d = ok (record d { free_records = d.free_records + 1 })
  count_slot (broken e) d = fail e
  count_slot (held r) d =
      if r.message_id == 0
      then ok (record d { pending_records = d.pending_records + 1 })
      else ok (record d { finalized_records = d.finalized_records + 1 })

  -- The loop of gateway_idempotency_get_diagnostics.
  unfoldable pub count_from : S → ℕ → ℕ → IdempotencyDiagnostics → Outcome IdempotencyDiagnostics
  unfolding count_slot and_then read_slot
  count_from s zero slot d = ok d
  count_from s (suc count) slot d =
      and_then (count_slot (read_slot nvs s slot) d) (λ d'. count_from s count (slot + 1) d')

  -- gateway_idempotency_get_diagnostics
  unfoldable pub get_diagnostics : IdemStore S → Bool → Outcome IdempotencyDiagnostics
  unfolding count_from
  get_diagnostics st taken =
      if not st.initialized
      then fail invalid_state
      else if not taken
      then fail timeout
      else count_from st.nvs_state max_idem_records 0
          (record { pending_records = 0; finalized_records = 0; free_records = 0 })

  -- A slot in the loop of gateway_idempotency_clear_pending, and the rest of the loop.
  unfoldable pub clear_erased :
      ℕ → (S → ℕ → S × ℕ × Option Error) → S × Option Error → S × ℕ × Option Error
  clear_erased cleared rest (s, some e) = (s, cleared, some e)
  clear_erased cleared rest (s, none) = rest s (cleared + 1)

  unfoldable pub clear_slot :
      S → ℕ → ℕ → (S → ℕ → S × ℕ × Option Error) → Slot → S × ℕ × Option Error
  unfolding clear_erased erase_slot
  clear_slot s slot cleared rest vacant = rest s cleared
  clear_slot s slot cleared rest (broken e) = (s, cleared, some e)
  clear_slot s slot cleared rest (held r) =
      if r.message_id == 0
      then clear_erased cleared rest (erase_slot nvs s slot)
      else rest s cleared

  -- The loop of gateway_idempotency_clear_pending, with what it has cleared.
  unfoldable pub clear_from : ℕ → ℕ → S → ℕ → S × ℕ × Option Error
  unfolding read_slot clear_slot
  clear_from zero slot s cleared = (s, cleared, none)
  clear_from (suc count) slot s cleared =
      clear_slot s slot cleared (λ s' c. clear_from count (slot + 1) s' c) (read_slot nvs s slot)

  unfoldable pub commit_cleared : S × ℕ × Option Error → S × ℕ × Option Error
  commit_cleared (s, cleared, some e) = (s, cleared, some e)
  commit_cleared (s, cleared, none) =
      if ltb 0 cleared then ((nvs.commit s).0, cleared, (nvs.commit s).1) else (s, cleared, none)

  -- gateway_idempotency_clear_pending
  unfoldable pub clear_pending : IdemStore S → Bool → S × ℕ × Option Error
  unfolding clear_from commit_cleared
  clear_pending st taken =
      if not st.initialized
      then (st.nvs_state, 0, some invalid_state)
      else if not taken
      then (st.nvs_state, 0, some timeout)
      else commit_cleared (clear_from max_idem_records 0 st.nvs_state 0)

-- gateway_idempotency_init: whether the mutex was created, and what nvs_open gave.
unfoldable pub idempotency_init :
    {S : Type 0} → IdemStore S → Bool → Option Error → IdemStore S × Option Error
idempotency_init st created (some e) =
    (st, if st.initialized then none else if not created then some no_mem else some e)
idempotency_init st created none =
    if st.initialized
    then (st, none)
    else if not created
    then (st, some no_mem)
    else (record st { initialized = true }, none)

-- ESP_ERR_INVALID_SIZE
abbrev pub invalid_size : Error
invalid_size = other 0x104

-- The octets that gateway_idempotency_sms_fingerprint hashes.
unfoldable pub fingerprint_octets : Bytes → Bytes → Bool → Bytes
fingerprint_octets recipient text delivery_report =
    recipient ++ 0 ∷ text ++ 0 ∷ (if delivery_report then 1 else 0) ∷ []

-- gateway_idempotency_sms_fingerprint; `allocated` says that there was memory. SIZE_MAX is that of 32 bits.
unfoldable pub sms_fingerprint :
    (Bytes → Outcome Bytes) → Bool → Option Bytes → Option Bytes → Bool → Outcome Bytes
unfolding fingerprint_octets
sms_fingerprint sha256 allocated none text delivery_report = fail invalid_arg
sms_fingerprint sha256 allocated (some recipient) none delivery_report = fail invalid_arg
sms_fingerprint sha256 allocated (some recipient) (some text) delivery_report =
    if ltb (4294967295 - length text - 3) (length recipient)
    then fail invalid_size
    else if not allocated
    then fail no_mem
    else sha256 (fingerprint_octets recipient text delivery_report)
