-- ===== src/Idempotency/Operations.antt =====
-- The operations of components/api_idempotency/api_idempotency.c, each under the mutex.
use esp32_sms_gateway.Base.{
  ℕ, Bool, not, ◌&&◌, ◌||◌, Option, none, some, ◌==◌, if◌then◌else◌, Bytes,
}
use esp32_sms_gateway.Store.Slots.{
  Error, invalid_arg, invalid_state, no_mem, not_found, other, Outcome, ok, fail, both,
}
use esp32_sms_gateway.Idempotency.{
  IdemRecord, IdemNvs, IdempotencyResult, miss, replay, conflict, max_idem_records, equal32,
  idem_slot_key, Slot, checked_slot, claim_start, Scanned, at_key, no_key, scan_from, answer,
  chosen_slot, reservation,
}

-- The variables of the component.
pub record IdemStore (S : Type 0) : Type 0 where
  pub nvs_state : S
  pub initialized : Bool

-- ESP_ERR_TIMEOUT
abbrev pub timeout : Error
timeout = other 0x107

module _ {S : Type 0} (nvs : IdemNvs S) where
  -- read_slot
  unfoldable pub read_slot : S → ℕ → Slot
  unfolding checked_slot idem_slot_key
  read_slot s slot = checked_slot (nvs.get_blob s (idem_slot_key slot))

  -- write_slot
  unfoldable pub write_slot : S → ℕ → IdemRecord → S × Option Error
  unfolding idem_slot_key both
  write_slot s slot r = both nvs.commit (nvs.set_blob s (idem_slot_key slot) r)

  -- The loop of an operation over all slots.
  unfoldable pub scan_slots : S → Bytes → Outcome Scanned
  unfolding scan_from read_slot
  scan_slots s key_hash = scan_from (read_slot s) key_hash max_idem_records 0 claim_start

  abbrev answer_scanned : Bytes → Outcome Scanned → Outcome (IdempotencyResult × ℕ)
  answer_scanned request_hash (fail e) = fail e
  answer_scanned request_hash (ok (at_key slot r)) = ok (answer r request_hash)
  answer_scanned request_hash (ok (no_key scan)) = ok (miss, 0)

  unfoldable pub reserved_in : S × Option Error → S × Outcome (IdempotencyResult × ℕ)
  reserved_in (s, none) = (s, ok (miss, 0))
  reserved_in (s, some e) = (s, fail e)

  -- A claim behind its loop.
  unfoldable pub claim_scanned :
      S → Bytes → Bytes → Outcome Scanned → S × Outcome (IdempotencyResult × ℕ)
  unfolding answer chosen_slot reservation write_slot reserved_in
  claim_scanned s key_hash request_hash (fail e) = (s, fail e)
  claim_scanned s key_hash request_hash (ok (at_key slot r)) = (s, ok (answer r request_hash))
  claim_scanned s key_hash request_hash (ok (no_key scan)) = into (chosen_slot scan)
    where
      into : Option ℕ → S × Outcome (IdempotencyResult × ℕ)
      into none = (s, fail no_mem)
      into (some chosen) =
          reserved_in (write_slot s chosen (reservation scan key_hash request_hash))

  -- A finalization behind its loop.
  unfoldable pub finalize_scanned : S → Bytes → ℕ → Outcome Scanned → S × Option Error
  unfolding write_slot
  finalize_scanned s request_hash message_id (fail e) = (s, some e)
  finalize_scanned s request_hash message_id (ok (no_key scan)) = (s, some not_found)
  finalize_scanned s request_hash message_id (ok (at_key slot r)) =
      if equal32 r.request_hash request_hash
      then write_slot s slot (record r { message_id = message_id })
      else (s, some invalid_state)

  unfoldable pub erase_slot : S → ℕ → S × Option Error
  unfolding idem_slot_key
  erase_slot s slot = nvs.erase_key s (idem_slot_key slot)

  -- A release behind its loop.
  unfoldable pub release_scanned : S → Bytes → Outcome Scanned → S × Option Error
  unfolding erase_slot both
  release_scanned s request_hash (fail e) = (s, some e)
  release_scanned s request_hash (ok (no_key scan)) = (s, some not_found)
  release_scanned s request_hash (ok (at_key slot r)) =
      if not (equal32 r.request_hash request_hash) || not (r.message_id == 0)
      then (s, some invalid_state)
      else both nvs.commit (erase_slot s slot)

module _ {S : Type 0} (nvs : IdemNvs S) (sha256 : Bytes → Outcome Bytes) where
  -- lock_store, and hash_key of the key
  unfoldable pub locked_hash : IdemStore S → Bool → Bytes → Outcome Bytes
  locked_hash st taken key =
      if not st.initialized
      then fail invalid_state
      else if not taken
      then fail timeout
      else sha256 key

  -- gateway_idempotency_lookup
  unfoldable pub lookup :
      IdemStore S → Bool → Option Bytes → Option Bytes → Outcome (IdempotencyResult × ℕ)
  unfolding locked_hash scan_slots answer
  lookup st taken none request_hash = fail invalid_arg
  lookup st taken (some key) none = fail invalid_arg
  lookup st taken (some key) (some request_hash) = of_hash (locked_hash st taken key)
    where
      of_hash : Outcome Bytes → Outcome (IdempotencyResult × ℕ)
      of_hash (fail e) = fail e
      of_hash (ok key_hash) = answer_scanned nvs request_hash (scan_slots nvs st.nvs_state key_hash)

  -- gateway_idempotency_claim
  unfoldable pub claim :
      IdemStore S → Bool → Option Bytes → Option Bytes → S × Outcome (IdempotencyResult × ℕ)
  unfolding locked_hash scan_slots claim_scanned
  claim st taken none request_hash = (st.nvs_state, fail invalid_arg)
  claim st taken (some key) none = (st.nvs_state, fail invalid_arg)
  claim st taken (some key) (some request_hash) = of_hash (locked_hash st taken key)
    where
      of_hash : Outcome Bytes → S × Outcome (IdempotencyResult × ℕ)
      of_hash (fail e) = (st.nvs_state, fail e)
      of_hash (ok key_hash) =
          claim_scanned nvs st.nvs_state key_hash request_hash
            (scan_slots nvs st.nvs_state key_hash)

  -- gateway_idempotency_finalize
  unfoldable pub finalize : IdemStore S → Bool → Option Bytes → Option Bytes → ℕ → S × Option Error
  unfolding locked_hash scan_slots finalize_scanned
  finalize st taken none request_hash message_id = (st.nvs_state, some invalid_arg)
  finalize st taken (some key) none message_id = (st.nvs_state, some invalid_arg)
  finalize st taken (some key) (some request_hash) message_id =
      if message_id == 0
      then (st.nvs_state, some invalid_arg)
      else of_hash (locked_hash st taken key)
    where
      of_hash : Outcome Bytes → S × Option Error
      of_hash (fail e) = (st.nvs_state, some e)
      of_hash (ok key_hash) =
          finalize_scanned nvs st.nvs_state request_hash message_id
            (scan_slots nvs st.nvs_state key_hash)

  -- gateway_idempotency_release_pending
  unfoldable pub release_pending :
      IdemStore S → Bool → Option Bytes → Option Bytes → S × Option Error
  unfolding locked_hash scan_slots release_scanned
  release_pending st taken none request_hash = (st.nvs_state, some invalid_arg)
  release_pending st taken (some key) none = (st.nvs_state, some invalid_arg)
  release_pending st taken (some key) (some request_hash) = of_hash (locked_hash st taken key)
    where
      of_hash : Outcome Bytes → S × Option Error
      of_hash (fail e) = (st.nvs_state, some e)
      of_hash (ok key_hash) =
          release_scanned nvs st.nvs_state request_hash (scan_slots nvs st.nvs_state key_hash)

  -- gateway_idempotency_remember; the mutex is taken twice.
  unfoldable pub remember :
      IdemStore S → Bool → Bool → Option Bytes → Option Bytes → ℕ → S × Option Error
  unfolding claim finalize
  remember st taken taken_again key request_hash message_id =
      after_claim (claim st taken key request_hash)
    where
      after_claim : S × Outcome (IdempotencyResult × ℕ) → S × Option Error
      after_claim (s, fail e) = (s, some e)
      after_claim (s, ok (conflict, existing)) = (s, some invalid_state)
      after_claim (s, ok (miss, existing)) =
          finalize (record st { nvs_state = s }) taken_again key request_hash message_id
      after_claim (s, ok (replay, existing)) =
          if not (existing == 0) && not (existing == message_id)
          then (s, some invalid_state)
          else finalize (record st { nvs_state = s }) taken_again key request_hash message_id
