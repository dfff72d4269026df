-- ===== src/Tests/Idempotency.antt =====
-- The idempotency table on a storage in memory.
use esp32_sms_gateway.Base.{
  ℕ, ◌≡◌, ◌≢◌, inl, inr, refl, sym, ap, ◌∙◌, true, none, some, List, [], ◌∷◌, Bytes, codes,
  if◌then◌else◌, str_eq, str_eq_iff, str_eq_refl, Bool-cases, arith,
}
use esp32_sms_gateway.Store.Slots.{Outcome, ok, Fetched, missing, found}
use esp32_sms_gateway.Idempotency.{
  IdemRecord, IdemNvs, miss, replay, conflict, held, idem_record_size, equal32,
}
use esp32_sms_gateway.Idempotency.Operations.{IdemStore, read_slot, lookup, claim, finalize}
use esp32_sms_gateway.Idempotency.Upkeep.{clear_pending}
use esp32_sms_gateway.Idempotency.Once.{IdemNvsLaws}
use esp32_sms_gateway.Idempotency.Clear.{EraseLaws, IsSettled, clear_pending-IsSettled}
use esp32_sms_gateway.Idempotency.Replay.{lookup-claim, claim-pending, lookup-finalize}

-- The blobs, the latest first.
abbrev Table : Type 0
Table = List (Bytes × IdemRecord)

fetch : Table → Bytes → Fetched (ℕ × IdemRecord)
fetch [] key = missing
fetch ((k, r) ∷ blobs) key =
    let rest = fetch blobs key in if str_eq key k then found (idem_record_size, r) else rest

remove : Table → Bytes → Table
remove [] key = []
remove ((k, r) ∷ blobs) key =
    let rest = remove blobs key in if str_eq key k then rest else (k, r) ∷ rest

abbrev table : IdemNvs Table
table = record {
  get_blob = fetch;
  set_blob = λ s key r. ((key, r) ∷ s, none);
  erase_key = λ s key. (remove s key, none);
  commit = λ s. (s, none);
}

fetch_same :
    (s s' : Table) (key : Bytes) (r : IdemRecord)
    → (key, r) ∷ s ≡ s'
    → fetch s' key ≡ found (idem_record_size, r)
unfolding fetch
fetch_same s s' key r h = rw (sym h, str_eq_refl key) refl

fetch_other :
    (s s' : Table) (key other : Bytes) (r : IdemRecord)
    → other ≢ key
    → (key, r) ∷ s ≡ s'
    → fetch s' other ≡ fetch s other
unfolding fetch
fetch_other s s' key other r differ h = elim (Bool-cases (str_eq other key)) [
  | inl same ↦ absurd (differ ((str_eq_iff other key).0 same))
  | inr apart ↦ rw (sym h, apart) refl
]

table_laws : IdemNvsLaws table
table_laws = record {
  set_found = λ s key r h. fetch_same s _ key r (ap (λ t. t.0) h);
  set_other = λ s key other r differ h. fetch_other s _ key other r differ (ap (λ t. t.0) h);
  commit_keeps = λ s key h. ap (λ t. fetch t.0 key) (sym h);
}

-- A stand-in for SHA-256 that keeps its input.
abbrev as_it_is : Bytes → Outcome Bytes
as_it_is key = ok key

abbrev reserved : ℕ → IdemRecord
reserved id = record {
  magic = 0x4944454D;
  version = 2;
  reserved = 0;
  sequence = 1;
  message_id = id;
  key_hash = codes "key";
  request_hash = codes "request";
}

abbrev empty : IdemStore Table
empty = record { nvs_state = []; initialized = true }

abbrev claimed : Table
claimed = (codes "r00", reserved 0) ∷ []

claims :
    claim table as_it_is empty true (some (codes "key")) (some (codes "request"))
    ≡ (claimed, ok (miss, 0))
unfolding claim fetch
claims = refl

lookup-claim_example :
    lookup table as_it_is
      (record empty { nvs_state = claimed })
      true
      (some (codes "key"))
      (some (codes "another"))
    ≡ ok (if equal32 (codes "request") (codes "another") then replay else conflict, 0)
lookup-claim_example =
    lookup-claim table table_laws as_it_is empty true (codes "key") (codes "request")
      (codes "another") claims

-- A second key is claimed while the first is pending.
second :
    claim table as_it_is
      (record empty { nvs_state = claimed })
      true
      (some (codes "other"))
      (some (codes "request"))
    ≡ (
      (codes "r01", record (reserved 0) { sequence = 2; key_hash = codes "other" }) ∷ claimed,
      ok (miss, 0),
    )
unfolding claim fetch str_eq
second = refl

first_held : read_slot table claimed 0 ≡ held (reserved 0)
unfolding read_slot fetch str_eq
first_held = refl

claim-pending_example :
    read_slot table
      ((codes "r01", record (reserved 0) { sequence = 2; key_hash = codes "other" }) ∷ claimed)
      0
    ≡ held (reserved 0)
claim-pending_example =
    claim-pending table table_laws as_it_is (record empty { nvs_state = claimed }) true
      (codes "other") (codes "request") 0 (reserved 0) (omega arith) first_held refl second

finalizes :
    finalize table as_it_is
      (record empty { nvs_state = claimed })
      true
      (some (codes "key"))
      (some (codes "request"))
      5
    ≡ ((codes "r00", reserved 5) ∷ claimed, none)
unfolding finalize fetch str_eq
finalizes = refl

lookup-finalize_example :
    lookup table as_it_is
      (record empty { nvs_state = (codes "r00", reserved 5) ∷ claimed })
      true
      (some (codes "key"))
      (some (codes "request"))
    ≡ ok (if equal32 (codes "request") (codes "request") then replay else conflict, 5)
lookup-finalize_example =
    lookup-finalize table table_laws as_it_is (record empty { nvs_state = claimed }) true
      (codes "key") (codes "request") (codes "request") 5 finalizes

remove_missing : (s : Table) (key : Bytes) → fetch (remove s key) key ≡ missing
unfolding fetch remove
remove_missing [] key = refl
remove_missing ((k, r) ∷ s) key = elim (Bool-cases (str_eq key k)) [
  | inl same ↦ rw same (remove_missing s key)
  | inr apart ↦ rw (apart, apart, remove_missing s key) refl
]

remove_other :
    (s : Table) (key other : Bytes) → other ≢ key → fetch (remove s key) other ≡ fetch s other
unfolding fetch remove
remove_other [] key other differ = refl
remove_other ((k, r) ∷ s) key other differ = elim (Bool-cases (str_eq key k)) [
  | inl same ↦
      let e : key ≡ k = (str_eq_iff key k).0 same in
      elim (Bool-cases (str_eq other k)) [
        | inl equal ↦ absurd (differ ((str_eq_iff other k).0 equal ∙ sym e))
        | inr apart ↦ rw (same, apart) (remove_other s key other differ)
      ]
  | inr apart ↦ rw (apart, remove_other s key other differ) refl
]

erase_laws : EraseLaws table
erase_laws = record {
  erase_missing = λ s key h. ap (λ t. fetch t.0 key) (sym h) ∙ remove_missing s key;
  erase_other =
      λ s key other differ h. ap (λ t. fetch t.0 other) (sym h) ∙ remove_other s key other differ;
  commit_keeps = λ s key h. ap (λ t. fetch t.0 key) (sym h);
}

cleared : clear_pending table (record empty { nvs_state = claimed }) true ≡ ([], 1, none)
unfolding clear_pending fetch remove str_eq
cleared = refl

clear_pending-IsSettled_example : IsSettled (read_slot table [] 0)
clear_pending-IsSettled_example =
    clear_pending-IsSettled table erase_laws (record empty { nvs_state = claimed }) true 0
      (omega arith) cleared
