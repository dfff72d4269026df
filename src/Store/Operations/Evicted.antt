-- ===== src/Store/Operations/Evicted.antt =====
-- Which record sms_store_save of a new message gives up.
use esp32_sms_gateway.Base.{
  ℕ, ◌<◌, ◌≡◌, ◌≢◌, refl, ap, ◌∙◌, Option, none, some, arith, ◌==◌, Bool-cases, inl, inr, ◌⊎◌,
}
use esp32_sms_gateway.Store.Message.{Message}
use esp32_sms_gateway.Store.Slots.{
  Error, no_mem, Outcome, ok, fail, Nvs, NvsLaws, max_records, load_slot, erase_slot, is_free,
  find_empty_slot,
}
use esp32_sms_gateway.Store.Slots.Frame.{load_slot-write_slot_other}
use esp32_sms_gateway.Store.Slots.Scan.{first_from-eq-ok}
use esp32_sms_gateway.Store.Slots.Prunable.{MayEvict, find_prunable_slot-MayEvict}
use esp32_sms_gateway.Store.Operations.{
  Store, slot_of, is_no_mem, savable, evicted, evict, place, save_new, save,
}
use esp32_sms_gateway.Store.Operations.Saved.{slot_of-eq-ok, is_free-eq-true}
use esp32_sms_gateway.Store.Operations.New.{through_guards_new, place-SameBut, save_placed-eq-none}

module _ {S : Type 0} {nvs : Nvs S} (laws : NvsLaws nvs) where
  -- The slot was free, or its record could be given up.
  abbrev pub WasFree : Store S → ℕ → Type 0
  WasFree st j =
      (load_slot nvs st.nvs_state j ≡ ok none)
      ⊎ ((old : Message) × (load_slot nvs st.nvs_state j ≡ ok (some old))
          × MayEvict st.replay_protection_enabled st.replay_watermark old.delivery_report_requested
              old.id old.status)

  evict-eq-ok :
      (st : Store S) (x : Outcome ℕ) {st' : Store S} {j : ℕ}
      → evict nvs st x ≡ (st', ok j)
      → x ≡ ok j
  unfolding evict evicted
  evict-eq-ok st (fail e) h = cc
  evict-eq-ok st (ok k) {st'} {j} h = by_erase (erase_slot nvs st.nvs_state k) h
    where
      by_erase : (x : S × Option Error) → evicted nvs st k x ≡ (st', ok j) → ok k ≡ ok j
      by_erase (s, some e) g = cc
      by_erase (s, none) g = cc

  place-WasFree :
      (st : Store S) (x : Outcome ℕ) {st' : Store S} {j : ℕ}
      → ((k : ℕ) → x ≡ ok k → load_slot nvs st.nvs_state k ≡ ok none)
      → place nvs st x ≡ (st', ok j)
      → WasFree st j
  unfolding place
  place-WasFree st (ok k) {st'} {j} free h = let here : k ≡ j = cc in inl (free j (ap ok here))
  place-WasFree st (fail e) free h = elim (Bool-cases (is_no_mem e)) [
    | inr worse ↦ cc (rw worse at h)
    | inl full ↦
        let (id, it) = slot_of-eq-ok _ (evict-eq-ok st _ (rw full at h)) in
        inr (
          find_prunable_slot-MayEvict nvs st.nvs_state st.replay_protection_enabled
            st.replay_watermark it)
  ]

  empty_slot-free :
      (s : S) (k : ℕ)
      → slot_of (find_empty_slot nvs s) ≡ ok k
      → (k < max_records) × (load_slot nvs s k ≡ ok none)
  unfolding find_empty_slot
  empty_slot-free s k found =
      let (o, reached) = slot_of-eq-ok _ found in
      let (low, high, loaded, free, before) =
        first_from-eq-ok nvs is_free no_mem s max_records 0 reached in
      (high, loaded ∙ ap ok (is_free-eq-true o free))

  -- A save of a new message without an error changes what one slot reads and no other, and that slot was free
  -- or held a record that may be given up: a delivered, failed or unsupported one, a sent one whose report
  -- was not asked for, or a received one, this under replay protection only up to the watermark.
  pub save-MayEvict :
      (st : Store S) (m : Message) {st' : Store S} {m' : Message}
      → m.id ≡ 0
      → save nvs st m ≡ (st', m', none)
      → (j : ℕ) × (j < max_records)
        × WasFree st j
        × ((i : ℕ)
            → i < max_records
            → i ≢ j
            → load_slot nvs st'.nvs_state i ≡ load_slot nvs st.nvs_state i)
  unfolding save save_new
  save-MayEvict st m {st'} {m'} unnamed h =
      let (opened, good, there) =
        through_guards_new _ _ _ _ _ st.initialized (savable m) (m.id == 0) _ _ (rw unnamed refl)
          h in
      let empty = slot_of (find_empty_slot nvs st.nvs_state) in
      let (st1, j, placed, done) = save_placed-eq-none laws m (place nvs st empty) there in
      let (same, still, named, s, reads, wrote) = done in
      let (high, kept_open, others) =
        place-SameBut laws st empty (λ k found. (empty_slot-free st.nvs_state k found).0) placed in
      (
        j,
        high,
        place-WasFree st empty (λ k found. (empty_slot-free st.nvs_state k found).1) placed,
        λ i low differ.
            load_slot-write_slot_other laws s j i m' (omega (arith, high)) (omega (arith, low))
              differ wrote
            ∙ reads i
            ∙ others i low differ,
      )
