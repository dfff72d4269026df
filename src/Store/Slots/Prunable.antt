-- ===== src/Store/Slots/Prunable.antt =====
-- Which record is evicted for a new message, when no slot is empty.
use esp32_sms_gateway.Base.{
  ℕ, ◌≤◌, ◌<◌, ◌≡◌, sym, Bool, true, false, not, ◌||◌, Option, none, some, arith, leb, ◌⊎◌,
}
use esp32_sms_gateway.Store.Message.{
  Message, Status, partial, received, queued, sending, sent, delivered, failed, unsupported,
  uncertain,
}
use esp32_sms_gateway.Store.Slots.{
  ok, Nvs, load_slot, lowest_from, or_no_mem, record_prunable, find_prunable_slot, max_records,
}
use esp32_sms_gateway.Store.Slots.Lowest.{
  AtMost, and_then-eq-ok, Holds, Within, lowest_from-Holds, lowest_from-Within,
  lowest_from-AtMost_any,
}

-- The records that sms_store_save may evict: received ones that need no replay any more, sent ones
-- without a pending report, and the finished ones.
abbrev pub MayEvict : Bool → ℕ → Bool → ℕ → Status → Type 0
MayEvict protection watermark report id received = (protection ≡ false) ⊎ (id ≤ watermark)
MayEvict protection watermark report id sent = report ≡ false
MayEvict protection watermark report id delivered = 0 ≤ id
MayEvict protection watermark report id failed = 0 ≤ id
MayEvict protection watermark report id unsupported = 0 ≤ id
MayEvict protection watermark report id status = false ≡ true

may_evict :
    (protection : Bool) (watermark : ℕ) (m : Message)
    → record_prunable protection watermark m ≡ true
    → MayEvict protection watermark m.delivery_report_requested m.id m.status
unfolding record_prunable
may_evict protection watermark m h = by_status m.status h
  where
    by_status :
        (status : Status)
        → (elim status [
          | received ↦ not protection || leb m.id watermark
          | sent ↦ not m.delivery_report_requested
          | delivered ↦ true
          | failed ↦ true
          | unsupported ↦ true
          | partial ↦ false
          | queued ↦ false
          | sending ↦ false
          | uncertain ↦ false
        ])
          ≡ true
        → MayEvict protection watermark m.delivery_report_requested m.id status
    by_status received k = ground arith
    by_status sent k = ground arith
    by_status delivered k = omega arith
    by_status failed k = omega arith
    by_status unsupported k = omega arith
    by_status partial k = k
    by_status queued k = k
    by_status sending k = k
    by_status uncertain k = k

module _ {S : Type 0} (nvs : Nvs S) where
  -- Only a record that may be evicted is evicted for a new message: never a queued, sending, partial or
  -- uncertain one, a sent one whose report is awaited, nor, under replay protection, a received one
  -- above the watermark.
  pub find_prunable_slot-MayEvict :
      (s : S) (protection : Bool) (watermark : ℕ) {id slot : ℕ}
      → find_prunable_slot nvs protection watermark s ≡ ok (slot, id)
      → (m : Message) × (load_slot nvs s slot ≡ ok (some m))
        × MayEvict protection watermark m.delivery_report_requested m.id m.status
  unfolding find_prunable_slot or_no_mem
  find_prunable_slot-MayEvict s protection watermark {id} {slot} h =
      let (best, looped, it) =
        and_then-eq-ok (lowest_from nvs (record_prunable protection watermark) s max_records 0 none)
          or_no_mem h in
      by_best best it (
        lowest_from-Holds nvs (record_prunable protection watermark) s max_records 0 none
          (omega arith) looped)
    where
      by_best :
          (best : Option (ℕ × ℕ))
          → or_no_mem best ≡ ok (slot, id)
          → Holds nvs (record_prunable protection watermark) s best
          → (m : Message) × (load_slot nvs s slot ≡ ok (some m))
            × MayEvict protection watermark m.delivery_report_requested m.id m.status
      by_best none it held = cc
      by_best (some (id', slot')) it (m, read, passes, named) =
          let same : slot' ≡ slot = cc in
          (m, rw (sym same) read, may_evict protection watermark m passes)

  -- No record that may be evicted has a lower id than the one that is.
  pub find_prunable_slot_oldest :
      (s : S) (protection : Bool) (watermark i : ℕ) (other : Message) {id slot : ℕ}
      → i < max_records
      → load_slot nvs s i ≡ ok (some other)
      → record_prunable protection watermark other ≡ true
      → find_prunable_slot nvs protection watermark s ≡ ok (slot, id)
      → (m : Message) × (load_slot nvs s slot ≡ ok (some m)) × (m.id ≤ other.id)
  unfolding find_prunable_slot or_no_mem
  find_prunable_slot_oldest s protection watermark i other {id} {slot} small loaded fits h =
      let (best, looped, it) =
        and_then-eq-ok (lowest_from nvs (record_prunable protection watermark) s max_records 0 none)
          or_no_mem h in
      by_best best it
        (lowest_from-Holds nvs (record_prunable protection watermark) s max_records 0 none
          (omega arith) looped)
        (lowest_from-AtMost_any nvs (record_prunable protection watermark) s max_records 0 i none
          other (omega arith) (omega arith) loaded fits looped)
    where
      by_best :
          (best : Option (ℕ × ℕ))
          → or_no_mem best ≡ ok (slot, id)
          → Holds nvs (record_prunable protection watermark) s best
          → AtMost best other.id
          → (m : Message) × (load_slot nvs s slot ≡ ok (some m)) × (m.id ≤ other.id)
      by_best none it held low = cc
      by_best (some (id', slot')) it (m, read, passes, named) low =
          let same : slot' ≡ slot = cc in
          let same_id : id' ≡ id = cc in (m, rw (sym same) read, omega (arith, named, low))

  pub find_prunable_slot_bounds :
      (s : S) (protection : Bool) (watermark : ℕ) {id slot : ℕ}
      → find_prunable_slot nvs protection watermark s ≡ ok (slot, id)
      → slot < max_records
  unfolding find_prunable_slot or_no_mem Within
  find_prunable_slot_bounds s protection watermark {id} {slot} h =
      let (best, looped, it) =
        and_then-eq-ok (lowest_from nvs (record_prunable protection watermark) s max_records 0 none)
          or_no_mem h in
      by_best best it (
        lowest_from-Within nvs (record_prunable protection watermark) max_records s max_records 0
          none (omega arith) (omega arith) looped)
    where
      by_best :
          (best : Option (ℕ × ℕ))
          → or_no_mem best ≡ ok (slot, id)
          → Within nvs (record_prunable protection watermark) max_records best
          → slot < max_records
      by_best none it small = cc
      by_best (some (id', slot')) it small =
          let same : slot' ≡ slot = cc in omega (arith, same, small)
