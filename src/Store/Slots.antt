-- ===== src/Store/Slots.antt =====
-- The slots of components/sms_store/sms_store.c. The key-value storage of ESP-IDF (nvs.h) is an
-- interface: `S` is what it holds. The bytes of a packed record are the record. A function that gives
-- esp_err_t and an out parameter gives an `Outcome`; `other` is any further error code.
pub mod Frame
pub mod Scan
pub mod Lowest
pub mod Prunable
use esp32_sms_gateway.Base.{
  ℕ, zero, suc, ◌+◌, ◌/◌, ◌%◌, ◌^◌, ◌≡◌, ◌≢◌, Bool, true, false, not, ◌&&◌, ◌||◌, Option, none,
  some, List, [], ◌∷◌, ltb, leb, ◌==◌, if◌then◌else◌, Bytes, codes,
}
use esp32_sms_gateway.Store.Message.{
  Message, Status, PersistedRecord, record_size, record_encode, record_decode, partial, received,
  queued, sending, sent, delivered, failed, unsupported, uncertain,
}

-- esp_err_t, but for ESP_OK
pub data Error : Type 0 where
  invalid_arg invalid_state no_mem not_found invalid_response : Error
  other : ℕ → Error

pub data Outcome (A : Type 0) : Type 0 where
  ok : A → Outcome A
  fail : Error → Outcome A

-- What a read of a key gives; `missing` is ESP_ERR_NVS_NOT_FOUND.
pub data Fetched (A : Type 0) : Type 0 where
  missing : Fetched A
  unread : Error → Fetched A
  found : A → Fetched A

-- The functions of nvs.h that the store calls; `none` is ESP_OK. A blob is its length and its record.
pub record Nvs (S : Type 0) : Type 0 where
  pub get_blob : S → Bytes → Fetched (ℕ × PersistedRecord)
  pub set_blob : S → Bytes → ℕ → PersistedRecord → S × Option Error
  pub erase_key : S → Bytes → S × Option Error
  pub get_u32 : S → Bytes → Fetched ℕ
  pub set_u32 : S → Bytes → ℕ → S × Option Error
  pub commit : S → S × Option Error

-- What nvs.h documents of them: a value that was set is read under its key, a call that sets or
-- erases a key leaves the others theirs, and a commit only makes durable what is read already.
pub record NvsLaws {S : Type 0} (nvs : Nvs S) : Type 0 where
  pub set_found :
      (s : S) (key : Bytes) (size : ℕ) (r : PersistedRecord) {s' : S}
      → nvs.set_blob s key size r ≡ (s', none)
      → nvs.get_blob s' key ≡ found (size, r)
  pub set_other :
      (s : S) (key other_key : Bytes) (size : ℕ) (r : PersistedRecord) {s' : S}
      → other_key ≢ key
      → nvs.set_blob s key size r ≡ (s', none)
      → nvs.get_blob s' other_key ≡ nvs.get_blob s other_key
  pub erase_other :
      (s : S) (key other_key : Bytes) {s' : S}
      → other_key ≢ key
      → nvs.erase_key s key ≡ (s', none)
      → nvs.get_blob s' other_key ≡ nvs.get_blob s other_key
  pub number_other :
      (s : S) (key other_key : Bytes) (n : ℕ) {s' : S}
      → other_key ≢ key
      → nvs.set_u32 s key n ≡ (s', none)
      → nvs.get_blob s' other_key ≡ nvs.get_blob s other_key
  pub commit_keeps :
      (s : S) (key : Bytes) {s' : S} {e : Option Error}
      → nvs.commit s ≡ (s', e)
      → nvs.get_blob s' key ≡ nvs.get_blob s key

abbrev pub max_records : ℕ
max_records = 128

-- slot_key
unfoldable pub slot_key : ℕ → Bytes
slot_key slot = b's' ∷ (48 + slot / 100) ∷ (48 + slot / 10 % 10) ∷ (48 + slot % 10) ∷ []

-- A record that was read for a slot.
unfoldable pub checked : ℕ → Option Message → Outcome (Option Message)
checked size none = fail invalid_response
checked size (some m) = if not (size == record_size) then fail invalid_response else ok (some m)

unfoldable pub reading : Fetched (ℕ × PersistedRecord) → Outcome (Option Message)
unfolding checked
reading missing = ok none
reading (unread e) = fail e
reading (found (size, r)) = checked size (record_decode r)

-- The result of two calls, the second made if the first went well.
unfoldable pub both : {S : Type 0} → (S → S × Option Error) → S × Option Error → S × Option Error
both second (s, some e) = (s, some e)
both second (s, none) = second s

-- record_prunable
unfoldable pub record_prunable : Bool → ℕ → Message → Bool
record_prunable protection watermark m = elim m.status [
  | received ↦ not protection || leb m.id watermark
  | sent ↦ not m.delivery_report_requested
  | delivered ↦ true
  | failed ↦ true
  | unsupported ↦ true
  | partial ↦ false
  | queued ↦ false
  | sending ↦ false
  | uncertain ↦ false
]

-- One round of a loop that stops at the first slot which passes a test, and the rest of the loop.
unfoldable pub first_round :
    (Option Message → Bool)
    → ℕ
    → Outcome (Option Message)
    → Outcome (ℕ × Option Message)
    → Outcome (ℕ × Option Message)
first_round p slot (fail e) rest = fail e
first_round p slot (ok o) rest = if p o then ok (slot, o) else rest

-- One round of a loop that looks for the record with the lowest id among those that pass a test;
-- `best` is the lowest so far, with its slot.
unfoldable pub lower : (Message → Bool) → ℕ → Option Message → Option (ℕ × ℕ) → Option (ℕ × ℕ)
lower p slot none best = best
lower p slot (some m) none = if p m && ltb m.id 4294967295 then some (m.id, slot) else none
lower p slot (some m) (some (best_id, best_slot)) =
    if p m && ltb m.id best_id then some (m.id, slot) else some (best_id, best_slot)

-- What nvs_get_u32 leaves in a variable that was set to 1, made a number that is an id.
unfoldable pub next_id_of : ℕ → ℕ
next_id_of next = if next == 0 then 1 else next

unfoldable pub has_id : ℕ → Option Message → Bool
has_id id none = false
has_id id (some m) = m.id == id

unfoldable pub is_free : Option Message → Bool
is_free none = true
is_free (some m) = false

-- The first call's error, or what the second makes of its result.
unfoldable pub and_then : {A B : Type 0} → Outcome A → (A → Outcome B) → Outcome B
and_then (fail e) then_do = fail e
and_then (ok a) then_do = then_do a

unfoldable pub or_no_mem : Option (ℕ × ℕ) → Outcome (ℕ × ℕ)
or_no_mem none = fail no_mem
or_no_mem (some (oldest_id, oldest_slot)) = ok (oldest_slot, oldest_id)

-- The result of allocate_id: the counter could not be read, or the id was given and the counter
-- written, with the error of that.
pub data Allocated (S : Type 0) : Type 0 where
  not_read : Error → Allocated S
  given : ℕ → S × Option Error → Allocated S

-- allocate_id by what the counter's read gives; the counter is 1 when it is missing.
unfoldable pub numbered : {S : Type 0} → (ℕ → S × Option Error) → Fetched ℕ → Allocated S
unfolding next_id_of
numbered store (unread e) = not_read e
numbered store missing = given 1 (store 2)
numbered store (found next) =
    given (next_id_of next) (store (next_id_of ((next_id_of next + 1) % 2 ^ 32)))

module _ {S : Type 0} (nvs : Nvs S) where
  -- load_slot
  unfoldable pub load_slot : S → ℕ → Outcome (Option Message)
  unfolding reading
  load_slot s slot = reading (nvs.get_blob s (slot_key slot))

  -- write_slot
  unfoldable pub write_slot : S → ℕ → Message → S × Option Error
  unfolding both
  write_slot s slot m =
      both nvs.commit (nvs.set_blob s (slot_key slot) record_size (record_encode m))

  -- erase_slot
  unfoldable pub erase_slot : S → ℕ → S × Option Error
  unfolding both
  erase_slot s slot = both nvs.commit (nvs.erase_key s (slot_key slot))

  -- The loop over `slots` slots from `slot` on that stops at the first which passes a test, and has
  -- the error `none_left` behind the last.
  unfoldable pub first_from :
      (Option Message → Bool) → Error → S → ℕ → ℕ → Outcome (ℕ × Option Message)
  unfolding first_round
  first_from p none_left s zero slot = fail none_left
  first_from p none_left s (suc slots) slot =
      first_round p slot (load_slot s slot) (first_from p none_left s slots (suc slot))

  -- The loop over `slots` slots from `slot` on for the lowest id.
  unfoldable pub lowest_from :
      (Message → Bool) → S → ℕ → ℕ → Option (ℕ × ℕ) → Outcome (Option (ℕ × ℕ))
  unfolding lower and_then
  lowest_from p s zero slot best = ok best
  lowest_from p s (suc slots) slot best =
      and_then (load_slot s slot) (λ o. lowest_from p s slots (suc slot) (lower p slot o best))

  -- find_id_slot
  unfoldable pub find_id_slot : ℕ → S → Outcome (ℕ × Option Message)
  unfolding first_from has_id
  find_id_slot id s = first_from (has_id id) not_found s max_records 0

  -- find_empty_slot
  unfoldable pub find_empty_slot : S → Outcome (ℕ × Option Message)
  unfolding first_from is_free
  find_empty_slot s = first_from is_free no_mem s max_records 0

  -- find_prunable_slot: the slot, with the id in it
  unfoldable pub find_prunable_slot : Bool → ℕ → S → Outcome (ℕ × ℕ)
  unfolding lowest_from record_prunable and_then or_no_mem
  find_prunable_slot protection watermark s =
      and_then (lowest_from (record_prunable protection watermark) s max_records 0 none) or_no_mem

  -- allocate_id
  unfoldable pub allocate_id : S → Allocated S
  unfolding numbered
  allocate_id s = numbered (nvs.set_u32 s (codes "next_id")) (nvs.get_u32 s (codes "next_id"))
