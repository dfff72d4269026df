-- ===== src/Store/Slots/Frame.antt =====
-- What a write of a slot changes: that slot, and no other.
use esp32_sms_gateway.Base.{codes, ℕ, ◌≤◌, ◌<◌, ◌≡◌, ◌≢◌, refl, true, Option, none, some, arith}
use esp32_sms_gateway.Store.Message.{Message, record_size, record_encode, fields_terminated}
use esp32_sms_gateway.Store.Message.RoundTrip.{record_decode-record_encode}
use esp32_sms_gateway.Store.Slots.{
  Error, ok, Nvs, NvsLaws, slot_key, checked, reading, both, load_slot, write_slot, erase_slot,
}

slot_key_injective : (i j : ℕ) → i < 1000 → j < 1000 → slot_key i ≡ slot_key j → i ≡ j
unfolding slot_key
slot_key_injective i j h k e = ground arith

pub both-eq-none :
    {S : Type 0} (second : S → S × Option Error) (first : S × Option Error) {s' : S}
    → both second first ≡ (s', none)
    → (s : S) × (first ≡ (s, none)) × (second s ≡ (s', none))
unfolding both
both-eq-none second (s, none) h = (s, refl, h)
both-eq-none second (s, some e) h = cc

-- A message that has an id, terminated fields and no more than 16 segments.
abbrev pub IsStorable : Message → Type 0
IsStorable m =
    (m.id ≢ 0)
    × (m.segment_count ≤ 16)
    × (fields_terminated m.sender m.recipient m.service_center_timestamp m.text m.raw_pdu ≡ true)

module _ {S : Type 0} {nvs : Nvs S} (laws : NvsLaws nvs) where
  pub load_slot-write_slot :
      (s : S) (slot : ℕ) (m : Message) {s' : S}
      → IsStorable m
      → write_slot nvs s slot m ≡ (s', none)
      → load_slot nvs s' slot ≡ ok (some m)
  unfolding write_slot load_slot
  load_slot-write_slot s slot m fit h =
      let (s1, wrote, kept) = both-eq-none nvs.commit _ h in
      let back = laws.set_found s (slot_key slot) record_size (record_encode m) wrote in
      let same = laws.commit_keeps s1 (slot_key slot) kept in
      let decoded = record_decode-record_encode m fit.0 fit.1 fit.2 in
      rw (same, back) (unfold reading in rw decoded (unfold checked in refl))

  pub load_slot-write_slot_other :
      (s : S) (slot i : ℕ) (m : Message) {s' : S}
      → slot < 1000
      → i < 1000
      → i ≢ slot
      → write_slot nvs s slot m ≡ (s', none)
      → load_slot nvs s' i ≡ load_slot nvs s i
  unfolding write_slot load_slot
  load_slot-write_slot_other s slot i m slot_small small differ h =
      let (s1, wrote, kept) = both-eq-none nvs.commit _ h in
      let apart =
        λ (e : slot_key i ≡ slot_key slot). differ (slot_key_injective i slot small slot_small e) in
      rw
        (
          laws.commit_keeps s1 (slot_key i) kept,
          laws.set_other s (slot_key slot) (slot_key i) record_size (record_encode m) apart wrote,
        )
        refl

  pub load_slot-erase_slot_other :
      (s : S) (slot i : ℕ) {s' : S}
      → slot < 1000
      → i < 1000
      → i ≢ slot
      → erase_slot nvs s slot ≡ (s', none)
      → load_slot nvs s' i ≡ load_slot nvs s i
  unfolding erase_slot load_slot
  load_slot-erase_slot_other s slot i slot_small small differ h =
      let (s1, erased, kept) = both-eq-none nvs.commit _ h in
      let apart =
        λ (e : slot_key i ≡ slot_key slot). differ (slot_key_injective i slot small slot_small e) in
      rw
        (
          laws.commit_keeps s1 (slot_key i) kept,
          laws.erase_other s (slot_key slot) (slot_key i) apart erased,
        )
        refl

  slot_key_apart : (i : ℕ) → slot_key i ≢ codes "next_id"
  unfolding slot_key
  slot_key_apart i e = cc

  pub load_slot-number :
      (s : S) (i n : ℕ) {s' : S}
      → nvs.set_u32 s (codes "next_id") n ≡ (s', none)
      → load_slot nvs s' i ≡ load_slot nvs s i
  unfolding load_slot
  load_slot-number s i n h =
      rw (laws.number_other s (codes "next_id") (slot_key i) n (slot_key_apart i) h) refl
