-- ===== src/Store/Operations/New.antt =====
-- What sms_store_save of a new message leaves, with and without an eviction.
use esp32_sms_gateway.Base.{
  ℕ, ◌+◌, ◌<◌, ◌≡◌, ◌≢◌, ◌%◌, ◌^◌, codes, refl, sym, subst, ap, ◌∙◌, Bool, true, false, not, Option,
  none, some, arith, ◌==◌, ==_ne, if◌then◌else◌, Bool-cases, inl, inr,
}
use esp32_sms_gateway.Store.Message.{Message}
use esp32_sms_gateway.Store.Slots.{
  Error, no_mem, not_found, Outcome, ok, fail, Nvs, NvsLaws, max_records, load_slot, write_slot,
  erase_slot, has_id, is_free, find_id_slot, find_empty_slot, Allocated, not_read, given,
  allocate_id, numbered, next_id_of, Fetched, missing, unread, found,
}
use esp32_sms_gateway.Store.Slots.Frame.{
  IsStorable, load_slot-write_slot, load_slot-write_slot_other, load_slot-erase_slot_other,
  load_slot-number,
}
use esp32_sms_gateway.Store.Slots.Scan.{Skips, SkipsUpTo, first_from-eq-ok, first_from_stops}
use esp32_sms_gateway.Store.Slots.Prunable.{find_prunable_slot_bounds}
use esp32_sms_gateway.Store.Operations.{
  Store, slot_of, is_no_mem, savable, written, with_id, evicted, evict, place, save_placed,
  save_new, save, get,
}
use esp32_sms_gateway.Store.Operations.Saved.{slot_of-eq-ok, has_own_id}

-- A save without an error passed the guards of sms_store_save.
pub through_guards_new :
    {A B : Type 0} (a b : A) (m : B) (e e' : Error) {a_later : A} {m_later : B}
    (opened good is_new : Bool) (new existing : A × B × Option Error)
    → is_new ≡ true
    → (if not opened
        then (a, m, some e)
        else if not good
        then (b, m, some e')
        else if is_new
        then new
        else existing)
      ≡ (a_later, m_later, none)
    → (opened ≡ true) × (good ≡ true) × (new ≡ (a_later, m_later, none))
through_guards_new a b m e e' false good is_new new existing h k = cc
through_guards_new a b m e e' true false is_new new existing h k = cc
through_guards_new a b m e e' true true is_new new existing h k = (refl, refl, rw h at k)

module _ {S : Type 0} {nvs : Nvs S} (laws : NvsLaws nvs) where
  -- The store `st'` reads as `st` does but for the slot `j`.
  abbrev pub SameBut : Store S → Store S → ℕ → Type 0
  SameBut st st' j =
      (j < max_records)
      × (st'.initialized ≡ st.initialized)
      × ((i : ℕ)
          → i < max_records
          → i ≢ j
          → load_slot nvs st'.nvs_state i ≡ load_slot nvs st.nvs_state i)

  evict-SameBut :
      (st : Store S) (x : Outcome ℕ) {st' : Store S} {j : ℕ}
      → ((k : ℕ) → x ≡ ok k → k < max_records)
      → evict nvs st x ≡ (st', ok j)
      → SameBut st st' j
  unfolding evict evicted
  evict-SameBut st (fail e) small h = cc
  evict-SameBut st (ok k) {st'} {j} small h = by_erase (erase_slot nvs st.nvs_state k) refl h
    where
      by_erase :
          (x : S × Option Error)
          → erase_slot nvs st.nvs_state k ≡ x
          → evicted nvs st k x ≡ (st', ok j)
          → SameBut st st' j
      by_erase (s, some e) erased g = cc
      by_erase (s, none) erased g =
          let kept = ap (λ r. r.0) g in
          let here : k ≡ j = cc in
          let below = small k refl in
          (
            omega (arith, here, below),
            sym (ap (λ t. t.initialized) kept),
            λ i low differ.
                ap (λ t. load_slot nvs t.nvs_state i) (sym kept)
                ∙ load_slot-erase_slot_other laws st.nvs_state k i (omega arith) (omega arith)
                    (λ e. differ (e ∙ here)) erased,
          )

  pub place-SameBut :
      (st : Store S) (x : Outcome ℕ) {st' : Store S} {j : ℕ}
      → ((k : ℕ) → x ≡ ok k → k < max_records)
      → place nvs st x ≡ (st', ok j)
      → SameBut st st' j
  unfolding place
  place-SameBut st (ok k) {st'} {j} small h =
      let kept : st ≡ st' = ap (λ r. r.0) h in
      let here : k ≡ j = cc in
      let below = small k refl in
      (
        omega (arith, here, below),
        sym (ap (λ t. t.initialized) kept),
        λ i low differ. ap (λ t. load_slot nvs t.nvs_state i) (sym kept),
      )
  place-SameBut st (fail e) small h = elim (Bool-cases (is_no_mem e)) [
    | inl full ↦
        evict-SameBut st _
          (λ k found.
            let (id, it) = slot_of-eq-ok _ found in
            find_prunable_slot_bounds nvs st.nvs_state st.replay_protection_enabled
              st.replay_watermark it)
          (rw full at h)
    | inr worse ↦ cc (rw worse at h)
  ]

  -- What is left of a save once its slot is chosen.
  abbrev pub Written : Store S → Message → ℕ → Store S → Message → Type 0
  Written st m j st' m' =
      (m' ≡ record m { id = m'.id })
      × (st'.initialized ≡ st.initialized)
      × (m'.id ≢ 0)
      × (s : S) × ((i : ℕ) → load_slot nvs s i ≡ load_slot nvs st.nvs_state i)
      × (write_slot nvs s j m' ≡ (st'.nvs_state, none))

  numbered-eq-given :
      (s : S) (x : Fetched ℕ) {id : ℕ} {s' : S}
      → numbered (nvs.set_u32 s (codes "next_id")) x ≡ given id (s', none)
      → (id ≢ 0) × ((i : ℕ) → load_slot nvs s' i ≡ load_slot nvs s i)
  unfolding numbered next_id_of
  numbered-eq-given s (unread e) h = cc
  numbered-eq-given s missing {id} {s'} h =
      let stored : nvs.set_u32 s (codes "next_id") 2 ≡ (s', none) = cc in
      let named : 1 ≡ id = cc in
      (λ z. absurd (omega (arith, named, z)), λ i. load_slot-number laws s i 2 stored)
  numbered-eq-given s (found next) {id} {s'} h =
      let stored : nvs.set_u32 s (codes "next_id") (next_id_of ((next_id_of next + 1) % 2 ^ 32))
          ≡ (s', none) =
        cc in
      let named : next_id_of next ≡ id = cc in
      (
        λ z. positive next (named ∙ z),
        λ i. load_slot-number laws s i (next_id_of ((next_id_of next + 1) % 2 ^ 32)) stored,
      )
    where
      positive : (n : ℕ) → next_id_of n ≢ 0
      positive n e = ground arith

  with_id-Written :
      (st : Store S) (m : Message) (j : ℕ) (x : Allocated S) {st' : Store S} {m' : Message}
      → ((id : ℕ) (s : S)
          → x ≡ given id (s, none)
          → (id ≢ 0) × ((i : ℕ) → load_slot nvs s i ≡ load_slot nvs st.nvs_state i))
      → with_id nvs st m j x ≡ (st', m', none)
      → Written st m j st' m'
  unfolding with_id written
  with_id-Written st m j (not_read e) facts h = cc
  with_id-Written st m j (given id (s, some e)) facts h = cc
  with_id-Written st m j (given id (s, none)) {st'} {m'} facts h =
      by_write (write_slot nvs s j (record m { id = id })) refl h
    where
      by_write :
          (w : S × Option Error)
          → write_slot nvs s j (record m { id = id }) ≡ w
          → written nvs true (record st { nvs_state = s }) (record m { id = id }) w
            ≡ (st', m', none)
          → Written st m j st' m'
      by_write (s', some e) wrote k = cc
      by_write (s', none) wrote k =
          let kept = ap (λ r. r.0) k in
          let same : record m { id = id } ≡ m' = ap (λ r. r.1) k in
          let (nonzero, reads) = facts id s refl in
          let named : id ≡ m'.id = ap (λ n. n.id) same in
          (
            sym same ∙ ap (λ n. record m { id = n }) named,
            sym (ap (λ t. t.initialized) kept),
            λ z. nonzero (named ∙ z),
            s,
            reads,
            ap (write_slot nvs s j) (sym same) ∙ wrote ∙ ap (λ t. (t.nvs_state, none)) kept,
          )

  save_placed-Written :
      (st : Store S) (m : Message) (j : ℕ) {st' : Store S} {m' : Message}
      → save_placed nvs m (st, ok j) ≡ (st', m', none)
      → Written st m j st' m'
  unfolding save_placed allocate_id
  save_placed-Written st m j h =
      with_id-Written st m j (allocate_id nvs st.nvs_state)
        (λ id s e. numbered-eq-given st.nvs_state (nvs.get_u32 st.nvs_state (codes "next_id")) e) h

  -- The two halves of a save that found a slot.
  pub save_placed-eq-none :
      (m : Message) (x : Store S × Outcome ℕ) {st' : Store S} {m' : Message}
      → save_placed nvs m x ≡ (st', m', none)
      → (st1 : Store S) × (j : ℕ) × (x ≡ (st1, ok j)) × Written st1 m j st' m'
  save_placed-eq-none m (st1, ok j) h = (st1, j, refl, save_placed-Written st1 m j h)
  save_placed-eq-none m (st1, fail e) h = absurd (refused h)
    where
      refused : {a : Store S} {b : Message} → save_placed nvs m (st1, fail e) ≡ (a, b, none) → ⊥
      refused h = unfold save_placed in cc

  named-IsStorable :
      (m : Message) (id : ℕ) → id ≢ 0 → savable m ≡ true → IsStorable (record m { id = id })
  unfolding savable
  named-IsStorable m id named h = (named, ground arith, ground arith)

  -- A new message that was saved without an error is what a get of its new id gives, and only its id
  -- was changed, whether or not another had to be evicted: on a store whose slots are all readable and
  -- hold other ids than the one that it was given.
  pub save-get_new :
      (st : Store S) (m : Message) {st' : Store S} {m' : Message}
      → m.id ≡ 0
      → ((i : ℕ) → i < max_records → Skips (has_id m'.id) (load_slot nvs st.nvs_state i))
      → save nvs st m ≡ (st', m', none)
      → (get nvs st' m'.id ≡ ok (some m')) × (m' ≡ record m { id = m'.id })
  unfolding save save_new get find_id_slot find_empty_slot
  save-get_new st m {st'} {m'} unnamed fresh h =
      let (opened, good, there) =
        through_guards_new _ _ _ _ _ st.initialized (savable m) (m.id == 0) _ _ (rw unnamed refl)
          h in
      let (st1, j, placed, done) =
        save_placed-eq-none m (place nvs st (slot_of (find_empty_slot nvs st.nvs_state))) there in
      let (same, still, named, s, reads, wrote) = done in
      let (high, kept_open, others) =
        place-SameBut st (slot_of (find_empty_slot nvs st.nvs_state))
          (λ k found.
            let (o, reached) = slot_of-eq-ok _ found in
            (first_from-eq-ok nvs is_free no_mem st.nvs_state max_records 0 reached).1)
          placed in
      let fit : IsStorable m' = subst IsStorable (sym same) (named-IsStorable m m'.id named good) in
      let loaded = load_slot-write_slot laws s j m' fit wrote in
      let before : SkipsUpTo nvs (has_id m'.id) st'.nvs_state 0 j = λ i low below.
        subst (Skips (has_id m'.id))
          (sym (
            load_slot-write_slot_other laws s j i m' (omega (arith, high))
              (omega (arith, high, below)) (λ e. absurd (omega (arith, e, below))) wrote
            ∙ reads i
            ∙ others i (omega (arith, high, below)) (λ e. absurd (omega (arith, e, below)))))
          (fresh i (omega (arith, high, below))) in
      let found_id =
        first_from_stops nvs (has_id m'.id) not_found st'.nvs_state max_records 0 j (some m')
          (omega arith, high, loaded, has_own_id m', before) in
      (rw (still ∙ kept_open ∙ opened, ==_ne m'.id 0 named, found_id, loaded) refl, same)
