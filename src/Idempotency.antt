-- ===== src/Idempotency.antt =====
-- components/api_idempotency/api_idempotency.c: the reservations by which a repeated
-- request with a key is told from a new one, as long as its slot is kept.
-- The key-value storage of ESP-IDF (nvs.h) is an interface, `S` is what it holds; SHA-256 (of
-- gateway_security.c, which calls Mbed TLS) is an argument. `taken` says that the mutex was taken in time.
-- A hash is its 32 octets. Wiping buffers is not modelled.
pub mod Operations
pub mod Upkeep
pub mod Scan
pub mod Once
pub mod Replay
pub mod Clear
use esp32_sms_gateway.Base.{
  ℕ, zero, suc, ◌+◌, ◌-◌, ◌/◌, ◌%◌, Bool, true, false, not, ◌&&◌, ◌||◌, Option, none, some, List,
  [], ◌∷◌, ◌++◌, ltb, leb, ◌==◌, if◌then◌else◌, Bytes, str_eq,
}
use esp32_sms_gateway.Store.Slots.{
  Error, invalid_arg, invalid_state, no_mem, not_found, other, Outcome, ok, fail, Fetched, missing,
  unread, found, both,
}

-- idem_record_t
pub record IdemRecord : Type 0 where
  pub magic : ℕ
  pub version : ℕ
  pub reserved : ℕ
  pub sequence : ℕ
  pub message_id : ℕ
  pub key_hash : Bytes
  pub request_hash : Bytes

-- The functions of nvs.h that are called here; a blob is its size and its record, `none` is ESP_OK.
pub record IdemNvs (S : Type 0) : Type 0 where
  pub get_blob : S → Bytes → Fetched (ℕ × IdemRecord)
  pub set_blob : S → Bytes → IdemRecord → S × Option Error
  pub erase_key : S → Bytes → S × Option Error
  pub commit : S → S × Option Error

-- gateway_idempotency_result_t
pub data IdempotencyResult : Type 0 where
  miss replay conflict : IdempotencyResult

-- gateway_idempotency_diagnostics_t
pub record IdempotencyDiagnostics : Type 0 where
  pub pending_records : ℕ
  pub finalized_records : ℕ
  pub free_records : ℕ

-- GATEWAY_IDEMPOTENCY_MAX_RECORDS
abbrev pub max_idem_records : ℕ
max_idem_records = 32

abbrev pub idem_magic : ℕ
idem_magic = 0x4944454D

abbrev pub idem_version : ℕ
idem_version = 2

-- sizeof(idem_record_t)
abbrev pub idem_record_size : ℕ
idem_record_size = 80

-- equal32: no difference in any octet.
abbrev pub equal32 : Bytes → Bytes → Bool
equal32 = str_eq

-- slot_key, `r%02u`
unfoldable pub idem_slot_key : ℕ → Bytes
idem_slot_key slot = b'r' ∷ (b'0' + slot / 10) ∷ (b'0' + slot % 10) ∷ []

-- What read_slot finds: `vacant` is ESP_ERR_NVS_NOT_FOUND or ESP_ERR_INVALID_VERSION, which every caller takes
-- the same way.
pub data Slot : Type 0 where
  vacant : Slot
  broken : Error → Slot
  held : IdemRecord → Slot

unfoldable pub checked_slot : Fetched (ℕ × IdemRecord) → Slot
checked_slot missing = vacant
checked_slot (unread e) = broken e
checked_slot (found (size, r)) =
    if not (size == idem_record_size)
      || not (r.magic == idem_magic)
      || not (r.version == idem_version)
    then vacant
    else held r

-- What the scan of a claim notes, as its local variables.
pub record ClaimScan : Type 0 where
  pub empty_slot : Option ℕ
  pub oldest_finalized_slot : Option ℕ
  pub oldest_sequence : ℕ
  pub max_sequence : ℕ

abbrev pub claim_start : ClaimScan
claim_start = record {
  empty_slot = none;
  oldest_finalized_slot = none;
  oldest_sequence = 4294967295;
  max_sequence = 0;
}

abbrev pub or_else : Option ℕ → Option ℕ → Option ℕ
or_else (some slot) later = some slot
or_else none later = later

unfoldable pub note_vacant : ℕ → ClaimScan → ClaimScan
note_vacant slot scan = record scan { empty_slot = or_else scan.empty_slot (some slot) }

unfoldable pub note_held : ℕ → IdemRecord → ClaimScan → ClaimScan
note_held slot r scan =
    let older = not (r.message_id == 0) && ltb r.sequence scan.oldest_sequence in
    record {
      empty_slot = scan.empty_slot;
      oldest_finalized_slot = if older then some slot else scan.oldest_finalized_slot;
      oldest_sequence = if older then r.sequence else scan.oldest_sequence;
      max_sequence = if ltb scan.max_sequence r.sequence then r.sequence else scan.max_sequence;
    }

-- How a loop over the slots ends: at a record with the key, with its slot, or behind the last one.
pub data Scanned : Type 0 where
  at_key : ℕ → IdemRecord → Scanned
  no_key : ClaimScan → Scanned

-- The loops of lookup, claim, finalize and release_pending over `count` slots from `slot` on: they pass by a
-- vacant slot and one of another key, and stop at the key's or at an error. What a claim notes is carried along.
unfoldable pub scan_round :
    Bytes → ℕ → ClaimScan → Slot → (ClaimScan → Outcome Scanned) → Outcome Scanned
unfolding note_vacant note_held
scan_round key_hash slot scan vacant rest = rest (note_vacant slot scan)
scan_round key_hash slot scan (broken e) rest = fail e
scan_round key_hash slot scan (held r) rest =
    if equal32 r.key_hash key_hash then ok (at_key slot r) else rest (note_held slot r scan)

unfoldable pub scan_from : (ℕ → Slot) → Bytes → ℕ → ℕ → ClaimScan → Outcome Scanned
unfolding scan_round
scan_from read key_hash zero slot scan = ok (no_key scan)
scan_from read key_hash (suc count) slot scan =
    scan_round key_hash slot scan (read slot)
      (λ scan'. scan_from read key_hash count (slot + 1) scan')

-- The answer for a record with the key.
unfoldable pub answer : IdemRecord → Bytes → IdempotencyResult × ℕ
answer r request_hash =
    (if equal32 r.request_hash request_hash then replay else conflict, r.message_id)

-- The slot that a claim chooses.
unfoldable pub chosen_slot : ClaimScan → Option ℕ
chosen_slot scan = or_else scan.empty_slot scan.oldest_finalized_slot

-- The record that a claim writes.
unfoldable pub reservation : ClaimScan → Bytes → Bytes → IdemRecord
reservation scan key_hash request_hash = record {
  magic = idem_magic;
  version = idem_version;
  reserved = 0;
  sequence = if scan.max_sequence == 4294967295 then 1 else scan.max_sequence + 1;
  message_id = 0;
  key_hash = key_hash;
  request_hash = request_hash;
}
