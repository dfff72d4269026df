-- ===== src/Store/Operations.antt =====
-- The operations of components/sms_store/sms_store.c, each under the mutex of the store. A pointer that
-- may be NULL is an option; a lookup gives what it writes through `out`.
pub mod Saved
pub mod Oldest
pub mod New
pub mod Evicted
use esp32_sms_gateway.Base.{
  ℕ, zero, suc, ◌+◌, ◌-◌, ◌/◌, ◌%◌, ◌^◌, Bool, true, false, not, ◌&&◌, ◌||◌, Option, none, some,
  List, [], ◌∷◌, ◌++◌, ltb, leb, ◌==◌, if◌then◌else◌, Bytes, length, get_or, set, str_eq,
}
use esp32_sms_gateway.Store.Message.{
  Message, Direction, inbound, outbound, Status, status_code, Encoding, encoding_code,
  direction_code, fields_terminated, partial, received, unsupported,
}
use esp32_sms_gateway.Store.Slots.{
  Error, invalid_arg, invalid_state, no_mem, not_found, Outcome, ok, fail, Nvs, max_records,
  load_slot, write_slot, erase_slot, first_from, lowest_from, find_id_slot, find_empty_slot,
  find_prunable_slot, Allocated, not_read, given, allocate_id, and_then,
}

-- The variables of the store.
pub record Store (S : Type 0) : Type 0 where
  pub nvs_state : S
  pub initialized : Bool
  pub pruned_records : ℕ
  pub capacity_failures : ℕ
  pub replay_watermark : ℕ
  pub replay_protection_enabled : Bool

abbrev pub is_no_mem : Error → Bool
is_no_mem no_mem = true
is_no_mem e = false

abbrev pub is_not_found : Error → Bool
is_not_found not_found = true
is_not_found e = false

-- The store, the caller's message and the error, as sms_store_save leaves them.
abbrev pub Saving : Type 0 → Type 0
Saving S = Store S × Message × Option Error

abbrev pub slot_of : {A : Type 0} → Outcome (ℕ × A) → Outcome ℕ
slot_of (fail e) = fail e
slot_of (ok (slot, a)) = ok slot

-- What sms_store_save checks of the message.
unfoldable pub savable : Message → Bool
savable m =
    fields_terminated m.sender m.recipient m.service_center_timestamp m.text m.raw_pdu
    && leb m.segment_count 16

-- The C string in a char array.
unfoldable pub text_of : Bytes → Bytes
text_of [] = []
text_of (c ∷ s) = let rest = text_of s in if c == 0 then [] else c ∷ rest

module _ {S : Type 0} (nvs : Nvs S) where
  -- The end of sms_store_save: a new message that was not written loses its id.
  unfoldable pub written : Bool → Store S → Message → S × Option Error → Saving S
  written is_new st m (s, none) = (record st { nvs_state = s }, m, none)
  written is_new st m (s, some e) =
      (record st { nvs_state = s }, (if is_new then record m { id = 0 } else m), some e)

  unfoldable pub with_id : Store S → Message → ℕ → Allocated S → Saving S
  unfolding written
  with_id st m slot (not_read e) = (st, m, some e)
  with_id st m slot (given id (s, some e)) =
      (record st { nvs_state = s }, record m { id = id }, some e)
  with_id st m slot (given id (s, none)) =
      written true (record st { nvs_state = s }) (record m { id = id })
        (write_slot nvs s slot (record m { id = id }))

  -- The slot that was made free for a new message, or the error.
  unfoldable pub evicted : Store S → ℕ → S × Option Error → Store S × Outcome ℕ
  evicted st slot (s, none) =
      (record st { nvs_state = s; pruned_records = (st.pruned_records + 1) % 2 ^ 32 }, ok slot)
  evicted st slot (s, some e) = (record st { nvs_state = s }, fail e)

  unfoldable pub evict : Store S → Outcome ℕ → Store S × Outcome ℕ
  unfolding evicted
  evict st (fail e) = (st, fail e)
  evict st (ok slot) = evicted st slot (erase_slot nvs st.nvs_state slot)

  unfoldable pub place : Store S → Outcome ℕ → Store S × Outcome ℕ
  unfolding evict
  place st (ok slot) = (st, ok slot)
  place st (fail e) =
      if is_no_mem e
      then evict st (
          slot_of
            (find_prunable_slot nvs st.replay_protection_enabled st.replay_watermark st.nvs_state))
      else (st, fail e)

  unfoldable pub save_placed : Message → Store S × Outcome ℕ → Saving S
  unfolding with_id
  save_placed m (st, ok slot) = with_id st m slot (allocate_id nvs st.nvs_state)
  save_placed m (st, fail e) = (
    (if is_no_mem e
        then record st { capacity_failures = (st.capacity_failures + 1) % 2 ^ 32 }
        else st),
    m,
    some e,
  )

  -- sms_store_save of a message with the id 0
  unfoldable pub save_new : Store S → Message → Saving S
  unfolding place save_placed
  save_new st m = save_placed m (place st (slot_of (find_empty_slot nvs st.nvs_state)))

  unfoldable pub save_at : Store S → Message → Outcome ℕ → Saving S
  unfolding written
  save_at st m (ok slot) = written false st m (write_slot nvs st.nvs_state slot m)
  save_at st m (fail e) = (st, m, some e)

  -- The slot of an id, or an empty one.
  unfoldable pub slot_or_empty : S → Outcome ℕ → Outcome ℕ
  slot_or_empty s (ok slot) = ok slot
  slot_or_empty s (fail e) = if is_not_found e then slot_of (find_empty_slot nvs s) else fail e

  -- sms_store_save of a message that has an id
  unfoldable pub save_existing : Store S → Message → Saving S
  unfolding save_at slot_or_empty
  save_existing st m =
      save_at st m (slot_or_empty st.nvs_state (slot_of (find_id_slot nvs m.id st.nvs_state)))

  -- sms_store_save
  unfoldable pub save : Store S → Message → Saving S
  unfolding save_new save_existing
  save st m =
      if not st.initialized
      then (st, m, some invalid_state)
      else if not (savable m)
      then (st, m, some invalid_arg)
      else if m.id == 0
      then save_new st m
      else save_existing st m

  -- A record that was found, read again from its slot.
  abbrev pub reload : S → Outcome ℕ → Outcome (Option Message)
  reload s (fail e) = fail e
  reload s (ok slot) = load_slot nvs s slot

  -- sms_store_get
  unfoldable pub get : Store S → ℕ → Outcome (Option Message)
  get st id =
      if not st.initialized || id == 0
      then fail invalid_arg
      else reload st.nvs_state (slot_of (find_id_slot nvs id st.nvs_state))

  unfoldable pub delete_at : Store S → Outcome ℕ → Store S × Option Error
  delete_at st (fail e) = (st, some e)
  delete_at st (ok slot) =
      let (s, e) = erase_slot nvs st.nvs_state slot in (record st { nvs_state = s }, e)

  -- sms_store_delete
  unfoldable pub delete : Store S → ℕ → Store S × Option Error
  unfolding delete_at
  delete st id =
      if not st.initialized || id == 0
      then (st, some invalid_arg)
      else delete_at st (slot_of (find_id_slot nvs id st.nvs_state))

  abbrev pub reload_best : S → Option (ℕ × ℕ) → Outcome (Option Message)
  reload_best s none = fail not_found
  reload_best s (some (best_id, best_slot)) = load_slot nvs s best_slot

  -- sms_store_find_status
  unfoldable pub find_status : Store S → Status → Outcome (Option Message)
  find_status st status =
      if not st.initialized
      then fail invalid_arg
      else and_then
          (lowest_from nvs (λ m. status_code m.status == status_code status) st.nvs_state
            max_records 0 none)
          (reload_best st.nvs_state)

  -- The lookups that stop at the first record which passes a test, and give that record.
  abbrev pub matches : (Message → Bool) → Option Message → Bool
  matches p none = false
  matches p (some m) = p m

  abbrev pub record_of : Outcome (ℕ × Option Message) → Outcome (Option Message)
  record_of (fail e) = fail e
  record_of (ok (slot, o)) = ok o

  -- The loop of sms_store_find_partial, sms_store_find_inbound_identity and
  -- sms_store_find_inbound_raw_pdu.
  unfoldable pub find_first : (Message → Bool) → Store S → Outcome (Option Message)
  find_first p st = record_of (first_from nvs (matches p) not_found st.nvs_state max_records 0)

  -- sms_store_find_partial
  unfoldable pub find_partial : Store S → Bytes → ℕ → ℕ → ℕ → Outcome (Option Message)
  unfolding find_first
  find_partial st sender reference total_parts part_number =
      if not st.initialized || total_parts == 0 || part_number == 0
      then fail invalid_arg
      else find_first
          (λ m.
            direction_code m.direction == direction_code inbound
            && status_code m.status == status_code partial
            && m.concat.present
            && m.concat.reference == reference
            && m.concat.total_parts == total_parts
            && m.concat.part_number == part_number
            && str_eq (text_of m.sender) sender)
          st

  -- sms_store_find_inbound_identity
  unfoldable pub find_inbound_identity :
      Store S → Bytes → Bytes → Encoding → Bytes → Outcome (Option Message)
  unfolding find_first
  find_inbound_identity st sender timestamp encoding text =
      if not st.initialized
      then fail invalid_arg
      else find_first
          (λ m.
            direction_code m.direction == direction_code inbound
            && status_code m.status == status_code received
            && encoding_code m.encoding == encoding_code encoding
            && str_eq (text_of m.sender) sender
            && str_eq (text_of m.service_center_timestamp) timestamp
            && str_eq (text_of m.text) text)
          st

  -- sms_store_find_inbound_raw_pdu
  unfoldable pub find_inbound_raw_pdu : Store S → Bytes → Outcome (Option Message)
  unfolding find_first
  find_inbound_raw_pdu st pdu_hex =
      if not st.initialized
      then fail invalid_arg
      else find_first
          (λ m.
            direction_code m.direction == direction_code inbound
            && status_code m.status == status_code unsupported
            && str_eq (text_of m.raw_pdu) pdu_hex)
          st

  -- sms_store_set_replay_watermark
  unfoldable pub set_replay_watermark : Store S → Bool → ℕ → Store S
  set_replay_watermark st protection_enabled watermark = record st {
    replay_protection_enabled = protection_enabled;
    replay_watermark = watermark;
  }

-- sms_store_init: what opening the partition and its namespace gives, and whether the mutex was created.
unfoldable pub store_init :
    {S : Type 0} → Store S → Option Error → Option Error → Bool → Store S × Option Error
store_init st (some e) opened created = (st, some (if st.initialized then invalid_state else e))
store_init st none (some e) created = (st, some (if st.initialized then invalid_state else e))
store_init st none none created =
    if st.initialized
    then (st, some invalid_state)
    else if not created
    then (st, some no_mem)
    else (record st { initialized = true }, none)
