-- ===== src/Tests/Store.antt =====
-- The store of messages on a storage that keeps its entries in a list.
use esp32_sms_gateway.Base.{
  All, ◌<◌, length, ◌∙◌, ℕ, ◌≡◌, ◌≢◌, ◌≤◌, refl, sym, ◌∙◌, ap, ◌⊎◌, true, false, Option, none, some,
  List, [], ◌∷◌, ◌++◌, Bytes, codes, arith, ◌==◌, contains, str_eq, str_eq_refl, str_eq_iff,
  if◌then◌else◌, pos, replicate, Bool-cases, inl, inr,
}
use esp32_sms_gateway.Store.Message.{
  Message, PersistedRecord, outbound, queued, received, delivered, gsm7, record_encode,
  record_decode, Status, record_size, fields_terminated, terminated_field, message_of,
}
use esp32_sms_gateway.Store.Message.RoundTrip.{record_decode-record_encode}
use esp32_sms_gateway.Store.Slots.{
  allocate_id, numbered, next_id_of, find_empty_slot, is_free, ok, Fetched, missing, found, Nvs,
  NvsLaws, load_slot, write_slot, slot_key, reading, checked, both, first_from, first_round,
  find_id_slot, has_id, lowest_from, lower, and_then, or_no_mem, record_prunable,
  find_prunable_slot,
}
use esp32_sms_gateway.Store.Slots.Prunable.{
  MayEvict, find_prunable_slot-MayEvict, find_prunable_slot_oldest,
}
use esp32_sms_gateway.Store.Operations.{
  save_new, save_placed, with_id, place, evict, Store, save, get, find_status, savable,
  save_existing, save_at, slot_or_empty, written,
}
use esp32_sms_gateway.Store.Operations.Saved.{save-get, save-get_other}
use esp32_sms_gateway.Store.Slots.Scan.{Skips}
use esp32_sms_gateway.Store.Operations.New.{save-get_new}
use esp32_sms_gateway.Store.Operations.Evicted.{WasFree, save-MayEvict}
use esp32_sms_gateway.Store.Operations.Oldest.{find_status_oldest}
use esp32_sms_gateway.Store.Listing.{
  list, fold_from, collect, insertion_sort, sort_onto, shift_back, unwind, replace_highest,
  highest_from, get_diagnostics, count_used,
}
use esp32_sms_gateway.Store.Listing.Sorted.{Has, IsAscending, insertion_sort_lem}
use esp32_sms_gateway.Store.Listing.Complete.{IsHeld, list-IsHeld}
use esp32_sms_gateway.Store.Listing.Listed.{list_lem}
use mathlib.Core.List.{Perm}

-- The blobs, the latest first, and the counter (0 when it is missing).
record Memory : Type 0 where
  blobs : List (Bytes × ℕ × PersistedRecord)
  counter : ℕ

lookup : List (Bytes × ℕ × PersistedRecord) → Bytes → Fetched (ℕ × PersistedRecord)
lookup [] key = missing
lookup ((k, size, r) ∷ blobs) key =
    let rest = lookup blobs key in if str_eq key k then found (size, r) else rest

remove : List (Bytes × ℕ × PersistedRecord) → Bytes → List (Bytes × ℕ × PersistedRecord)
remove [] key = []
remove ((k, size, r) ∷ blobs) key =
    let rest = remove blobs key in if str_eq key k then rest else (k, size, r) ∷ rest

abbrev memory : Nvs Memory
memory = record {
  get_blob = λ s key. lookup s.blobs key;
  set_blob = λ s key size r. (record s { blobs = (key, size, r) ∷ s.blobs }, none);
  erase_key = λ s key. (record s { blobs = remove s.blobs key }, none);
  get_u32 = λ s key. if s.counter == 0 then missing else found s.counter;
  set_u32 = λ s key n. (record s { counter = n }, none);
  commit = λ s. (s, none);
}

lookup_same :
    (s s' : Memory) (key : Bytes) (size : ℕ) (r : PersistedRecord)
    → record s { blobs = (key, size, r) ∷ s.blobs } ≡ s'
    → lookup s'.blobs key ≡ found (size, r)
unfolding lookup
lookup_same s s' key size r h = rw (sym (ap (λ t. t.blobs) h), str_eq_refl key) refl

lookup_other :
    (s s' : Memory) (key other : Bytes) (size : ℕ) (r : PersistedRecord)
    → other ≢ key
    → record s { blobs = (key, size, r) ∷ s.blobs } ≡ s'
    → lookup s'.blobs other ≡ lookup s.blobs other
unfolding lookup
lookup_other s s' key other size r differ h =
    rw (sym (ap (λ t. t.blobs) h), other_key (Bool-cases (str_eq other key))) refl
  where
    other_key : (str_eq other key ≡ true) ⊎ (str_eq other key ≡ false) → str_eq other key ≡ false
    other_key (inl same) = absurd (differ ((str_eq_iff other key).0 same))
    other_key (inr apart) = apart

lookup-remove :
    (blobs : List (Bytes × ℕ × PersistedRecord)) (key other : Bytes)
    → other ≢ key
    → lookup (remove blobs key) other ≡ lookup blobs other
unfolding lookup remove
lookup-remove [] key other differ = refl
lookup-remove ((k, size, r) ∷ blobs) key other differ = elim (Bool-cases (str_eq key k)) [
  | inl same ↦
      let e : key ≡ k = (str_eq_iff key k).0 same in
      rw (same, apart (Bool-cases (str_eq other k)) (rw e at differ))
        (lookup-remove blobs key other differ)
  | inr other_entry ↦ rw (other_entry, lookup-remove blobs key other differ) refl
]
  where
    apart : (str_eq other k ≡ true) ⊎ (str_eq other k ≡ false) → other ≢ k → str_eq other k ≡ false
    apart (inl same) h = absurd (h ((str_eq_iff other k).0 same))
    apart (inr apart') h = apart'

memory_laws : NvsLaws memory
memory_laws = record {
  set_found = λ s key size r h. lookup_same s _ key size r (ap (λ t. t.0) h);
  set_other =
      λ s key other size r differ h. lookup_other s _ key other size r differ (ap (λ t. t.0) h);
  erase_other = λ s key other differ h.
      ap (λ t. lookup t.0.blobs other) (sym h) ∙ lookup-remove s.blobs key other differ;
  number_other = λ s key other n differ h. ap (λ t. lookup t.0.blobs other) (sym h);
  commit_keeps = λ s key h. ap (λ t. lookup t.0.blobs key) (sym h);
}

abbrev field : Bytes → Bytes
field text = text ++ 0 ∷ []

abbrev message : ℕ → Status → Message
message id status = record {
  id = id;
  direction = outbound;
  status = status;
  encoding = gsm7;
  sender = field [];
  recipient = field (codes "+491701234567");
  service_center_timestamp = field [];
  text = field (codes "Hello");
  raw_pdu = field [];
  concat = record {
    present = false;
    is_16bit = false;
    reference = 0;
    total_parts = 0;
    part_number = 0;
  };
  delivery_report_requested = false;
  concat_reference = 0;
  segment_count = 1;
  segment_sent_mask = 0;
  segment_delivered_mask = 0;
  segment_failed_mask = 0;
  modem_reference = replicate 16 0;
  delivery_status = replicate 16 0;
  inflight_segment = 0;
  send_attempts = 0;
  last_modem_error = pos 0;
}

abbrev blob : ℕ → Message → Bytes × ℕ × PersistedRecord
blob slot m = (slot_key slot, record_size, record_encode m)

-- Two stored messages: a delivered one in slot 0, and a queued one in slot 1.
abbrev two_messages : Memory
two_messages = record {
  blobs = blob 0 (message 5 delivered) ∷ blob 1 (message 3 queued) ∷ [];
  counter = 6;
}

abbrev opened : Store Memory
opened = record {
  nvs_state = two_messages;
  initialized = true;
  pruned_records = 0;
  capacity_failures = 0;
  replay_watermark = 0;
  replay_protection_enabled = true;
}

abbrev updated : Message
updated = record (message 3 queued) { send_attempts = 1 }

abbrev after_update : Store Memory
after_update = record opened {
  nvs_state = record two_messages { blobs = blob 1 updated ∷ two_messages.blobs };
}

update : save memory opened updated ≡ (after_update, updated, none)
unfolding save save_existing save_at slot_or_empty written savable fields_terminated
    terminated_field find_id_slot first_from first_round has_id load_slot reading checked
    record_decode message_of record_encode write_slot both lookup slot_key str_eq contains
update = refl

record_decode-record_encode_example : record_decode (record_encode updated) ≡ some updated
record_decode-record_encode_example =
    record_decode-record_encode updated (omega arith) (omega arith)
      (unfold fields_terminated terminated_field contains in refl)

save-get_example : (get memory after_update 3 ≡ ok (some updated)) × (updated ≡ updated)
save-get_example = save-get memory_laws opened updated (omega arith) update

save-get_other_example : get memory after_update 5 ≡ get memory opened 5
save-get_other_example =
    save-get_other memory_laws opened updated 5 refl (omega arith) (omega arith) update

slot_1 : load_slot memory two_messages 1 ≡ ok (some (message 3 queued))
unfolding fields_terminated terminated_field load_slot reading checked record_decode message_of
    record_encode lookup slot_key str_eq contains
slot_1 = refl

slot_0 : load_slot memory two_messages 0 ≡ ok (some (message 5 delivered))
unfolding fields_terminated terminated_field load_slot reading checked record_decode message_of
    record_encode lookup slot_key str_eq contains
slot_0 = refl

oldest_queued : find_status memory opened queued ≡ ok (some (message 3 queued))
unfolding find_status lowest_from lower and_then fields_terminated terminated_field load_slot
    reading checked record_decode message_of record_encode lookup slot_key str_eq contains
oldest_queued = refl

prunable : find_prunable_slot memory true 0 two_messages ≡ ok (0, 5)
unfolding find_prunable_slot record_prunable or_no_mem lowest_from lower and_then fields_terminated
    terminated_field load_slot reading checked record_decode message_of record_encode lookup
    slot_key str_eq contains
prunable = refl

-- A received message at the watermark may go, and one above it stays.
watermark_of_received :
    (record_prunable true 7 (message 7 received) ≡ true)
    × (record_prunable true 7 (message 8 received) ≡ false)
unfolding record_prunable
watermark_of_received = (refl, refl)

find_status_oldest_example :
    (m : Message) × (◌≡◌ {A = Option Message} (some (message 3 queued)) (some m))
    × (m.status ≡ queued)
    × (m.id ≤ 3)
find_status_oldest_example =
    find_status_oldest memory opened queued 1 (message 3 queued) (omega arith) slot_1 refl
      oldest_queued

find_prunable_slot-MayEvict_run :
    (m : Message) × (load_slot memory two_messages 0 ≡ ok (some m))
    × MayEvict true 0 m.delivery_report_requested m.id m.status
find_prunable_slot-MayEvict_run = find_prunable_slot-MayEvict memory two_messages true 0 prunable

find_prunable_slot_oldest_run :
    (m : Message) × (load_slot memory two_messages 0 ≡ ok (some m)) × (m.id ≤ 5)
find_prunable_slot_oldest_run =
    find_prunable_slot_oldest memory two_messages true 0 0 (message 5 delivered) (omega arith)
      slot_0 (unfold record_prunable in refl) prunable

listed : list memory opened 0 10 ≡ ok (message 3 queued ∷ message 5 delivered ∷ [])
unfolding list fold_from collect insertion_sort sort_onto shift_back unwind and_then
    fields_terminated terminated_field load_slot reading checked record_decode message_of
    record_encode lookup slot_key str_eq contains
listed = refl

-- With room for one, the lowest id takes the place of the higher one.
listed_one : list memory opened 0 1 ≡ ok (message 3 queued ∷ [])
unfolding list fold_from collect replace_highest highest_from insertion_sort sort_onto shift_back
    unwind and_then fields_terminated terminated_field load_slot reading checked record_decode
    message_of record_encode lookup slot_key str_eq contains
listed_one = refl

list_lem_run :
    All (λ m. 0 < m.id) (message 3 queued ∷ message 5 delivered ∷ [])
    × (length (message 3 queued ∷ message 5 delivered ∷ []) ≤ 10)
    × IsAscending (message 3 queued ∷ message 5 delivered ∷ [])
list_lem_run = list_lem memory opened 0 10 listed

-- The record of slot 0 is behind the one that is listed.
list-IsHeld_example :
    (Has (message 5 delivered) (message 3 queued ∷ [])
      ⊎ ((length (message 3 queued ∷ []) ≡ 1) × All (λ r. r.id ≤ 5) (message 3 queued ∷ [])))
    × All (IsHeld memory two_messages) (message 3 queued ∷ [])
    × All (λ r. 0 < r.id) (message 3 queued ∷ [])
    × (length (message 3 queued ∷ []) ≤ 1)
    × IsAscending (message 3 queued ∷ [])
list-IsHeld_example =
    list-IsHeld memory opened 0 1 0 (message 5 delivered) (omega arith) slot_0 (omega arith)
      listed_one

insertion_sort_lem_run :
    Perm
      (insertion_sort (message 5 delivered ∷ message 3 queued ∷ []))
      (message 5 delivered ∷ message 3 queued ∷ [])
    × IsAscending (insertion_sort (message 5 delivered ∷ message 3 queued ∷ []))
insertion_sort_lem_run = insertion_sort_lem (message 5 delivered ∷ message 3 queued ∷ [])

used_slots :
    get_diagnostics memory opened
    ≡ ok (record {
      pruned_records = 0;
      capacity_failures = 0;
      replay_watermark = 0;
      replay_protection_enabled = true;
      used_records = 2;
      free_records = 126;
    })
unfolding get_diagnostics fold_from count_used and_then fields_terminated terminated_field load_slot
    reading checked record_decode message_of record_encode lookup slot_key str_eq contains
used_slots = refl

abbrev empty : Store Memory
empty = record opened { nvs_state = record { blobs = []; counter = 0 } }

abbrev first_message : Message
first_message = message 1 queued

abbrev after_first : Store Memory
after_first = record empty { nvs_state = record { blobs = blob 0 first_message ∷ []; counter = 2 } }

first_save : save memory empty (message 0 queued) ≡ (after_first, first_message, none)
unfolding save save_new save_placed with_id place evict allocate_id numbered next_id_of written
    savable fields_terminated terminated_field find_empty_slot is_free first_from first_round
    load_slot reading checked record_decode message_of record_encode write_slot both lookup slot_key
    str_eq contains
first_save = refl

empty_slots : (i : ℕ) → i < 128 → Skips (has_id 1) (load_slot memory empty.nvs_state i)
unfolding load_slot reading lookup has_id
empty_slots i h = refl

save-get_new_example :
    (get memory after_first 1 ≡ ok (some first_message))
    × (first_message ≡ record (message 0 queued) { id = 1 })
save-get_new_example = save-get_new memory_laws empty (message 0 queued) refl empty_slots first_save

save-MayEvict_example :
    (j : ℕ) × (j < 128)
    × WasFree memory_laws empty j
    × ((i : ℕ)
        → i < 128
        → i ≢ j
        → load_slot memory after_first.nvs_state i ≡ load_slot memory empty.nvs_state i)
save-MayEvict_example = save-MayEvict memory_laws empty (message 0 queued) refl first_save
