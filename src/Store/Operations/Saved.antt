-- ===== src/Store/Operations/Saved.antt =====
-- What sms_store_save of a message with an id leaves: that message, and the others as they were.
use esp32_sms_gateway.Base.{
  ℕ, ◌≤◌, ◌<◌, ◌≡◌, ◌≢◌, refl, sym, subst, ap, ◌∙◌, Bool, true, false, not, Option, none, some,
  arith, ◌==◌, ==_ne, if◌then◌else◌, Bool-cases, inl, inr, ◌⊎◌,
}
use esp32_sms_gateway.Store.Message.{Message}
use esp32_sms_gateway.Store.Slots.{
  Error, no_mem, not_found, Outcome, ok, fail, Nvs, NvsLaws, max_records, load_slot, write_slot,
  first_from, has_id, is_free, find_id_slot, find_empty_slot,
}
use esp32_sms_gateway.Store.Slots.Frame.{
  IsStorable, load_slot-write_slot, load_slot-write_slot_other,
}
use esp32_sms_gateway.Store.Slots.Scan.{
  Skips, SkipsUpTo, first_from-eq-ok, first_from-eq-fail, first_from_stops, first_from-Alike, Alike,
}
use esp32_sms_gateway.Store.Operations.{
  Store, slot_of, is_not_found, savable, written, save_at, slot_or_empty, save_existing, save,
  reload, record_of, get,
}

pub slot_of-eq-ok :
    {A : Type 0} (x : Outcome (ℕ × A)) {j : ℕ} → slot_of x ≡ ok j → (a : A) × (x ≡ ok (j, a))
slot_of-eq-ok (fail e) h = cc
slot_of-eq-ok (ok (slot, a)) h = (a, cc)

slot_of-eq-fail : {A : Type 0} (x : Outcome (ℕ × A)) {e : Error} → slot_of x ≡ fail e → x ≡ fail e
slot_of-eq-fail (fail e) h = cc
slot_of-eq-fail (ok (slot, a)) h = cc

pub is_free-eq-true : (o : Option Message) → is_free o ≡ true → o ≡ none
unfolding is_free
is_free-eq-true none h = refl
is_free-eq-true (some m) h = cc

-- A save without an error passed the guards of sms_store_save.
through_guards :
    {A B : Type 0} (a b : A) (m : B) (e e' : Error) {a_later : A} {m_later : B}
    (opened good is_new : Bool) (new existing : A × B × Option Error)
    → is_new ≡ false
    → (if not opened
        then (a, m, some e)
        else if not good
        then (b, m, some e')
        else if is_new
        then new
        else existing)
      ≡ (a_later, m_later, none)
    → (opened ≡ true) × (good ≡ true) × (existing ≡ (a_later, m_later, none))
through_guards a b m e e' false good is_new new existing h k = cc
through_guards a b m e e' true false is_new new existing h k = cc
through_guards a b m e e' true true is_new new existing h k = (refl, refl, rw h at k)

pub has_own_id : (m : Message) → has_id m.id (some m) ≡ true
unfolding has_id
has_own_id m = ground arith

module _ {S : Type 0} (nvs : Nvs S) (id : ℕ) where
  -- The slot in which a message with the id is put: no slot before it holds the id, and it is empty or
  -- holds it.
  abbrev pub IsPlace : S → ℕ → Type 0
  IsPlace s j =
      (j < max_records)
      × SkipsUpTo nvs (has_id id) s 0 j
      × (o : Option Message) × (load_slot nvs s j ≡ ok o)
      × ((o ≡ none) ⊎ (has_id id o ≡ true))

  slot_or_empty-IsPlace :
      (s : S) {j : ℕ} → slot_or_empty nvs s (slot_of (find_id_slot nvs id s)) ≡ ok j → IsPlace s j
  unfolding find_id_slot find_empty_slot
  slot_or_empty-IsPlace s {j} h = by_found (slot_of (find_id_slot nvs id s)) refl h
    where
      by_empty :
          {e : Error}
          → first_from nvs (has_id id) not_found s max_records 0 ≡ fail e
          → slot_of (find_empty_slot nvs s) ≡ ok j
          → IsPlace s j
      by_empty failed k =
          let (o, reached) = slot_of-eq-ok _ k in
          let (low, high, loaded, free, before) =
            first_from-eq-ok nvs is_free no_mem s max_records 0 reached in
          (
            high,
            first_from-eq-fail nvs (has_id id) is_free not_found s max_records 0 j failed
                (omega (arith, high)) before,
            o,
            loaded,
            inl (is_free-eq-true o free),
          )

      failed_again :
          {e : Error} → is_not_found e ≡ false → ◌≡◌ {A = Outcome ℕ} (fail e) (ok j) → IsPlace s j
      failed_again worse k = cc

      by_found :
          (x : Outcome ℕ)
          → slot_of (find_id_slot nvs id s) ≡ x
          → slot_or_empty nvs s x ≡ ok j
          → IsPlace s j
      by_found (ok slot) read k =
          let same : slot ≡ j = unfold slot_or_empty in cc in
          let (o, reached) = slot_of-eq-ok _ read in
          let (low, high, loaded, hit, before) =
            first_from-eq-ok nvs (has_id id) not_found s max_records 0 reached in
          subst (λ n. IsPlace s n) same (high, before, o, loaded, inr hit)
      by_found (fail e) read k = elim (Bool-cases (is_not_found e)) [
        | inl absent ↦ by_empty (slot_of-eq-fail _ read) (unfold slot_or_empty in rw absent at k)
        | inr worse ↦ failed_again worse (unfold slot_or_empty in rw worse at k)
      ]

module _ {S : Type 0} {nvs : Nvs S} (laws : NvsLaws nvs) where
  save_at-eq-ok :
      (st : Store S) (m : Message) (x : Outcome ℕ) {st' : Store S} {m' : Message}
      → save_at nvs st m x ≡ (st', m', none)
      → (j : ℕ) × (x ≡ ok j)
        × (write_slot nvs st.nvs_state j m ≡ (st'.nvs_state, none))
        × (st'.initialized ≡ st.initialized)
        × (m' ≡ m)
  unfolding save_at written
  save_at-eq-ok st m (fail e) h = cc
  save_at-eq-ok st m (ok j) {st'} {m'} h = by_write (write_slot nvs st.nvs_state j m) refl h
    where
      by_write :
          (w : S × Option Error)
          → write_slot nvs st.nvs_state j m ≡ w
          → written nvs false st m w ≡ (st', m', none)
          → (i : ℕ) × (ok j ≡ ok i)
            × (write_slot nvs st.nvs_state i m ≡ (st'.nvs_state, none))
            × (st'.initialized ≡ st.initialized)
            × (m' ≡ m)
      by_write (s, none) wrote k =
          let kept = ap (λ r. r.0) k in
          (
            j,
            refl,
            wrote ∙ ap (λ t. (t.nvs_state, none)) kept,
            sym (ap (λ t. t.initialized) kept),
            sym (ap (λ r. r.1) k),
          )
      by_write (s, some e) wrote k = cc

  -- Where a successful save put a message that has an id.
  abbrev Saved : Store S → Message → Store S → Message → Type 0
  Saved st m st' m' =
      IsStorable m
      × (st'.initialized ≡ true)
      × (m' ≡ m)
      × (j : ℕ) × IsPlace nvs m.id st.nvs_state j
      × (write_slot nvs st.nvs_state j m ≡ (st'.nvs_state, none))

  savable-IsStorable : (m : Message) → m.id ≢ 0 → savable m ≡ true → IsStorable m
  unfolding savable
  savable-IsStorable m named h = ground arith

  save-Saved :
      (st : Store S) (m : Message) {st' : Store S} {m' : Message}
      → m.id ≢ 0
      → save nvs st m ≡ (st', m', none)
      → Saved st m st' m'
  unfolding save save_existing
  save-Saved st m {st'} {m'} named h =
      let (opened, good, there) =
        through_guards _ _ _ _ _ st.initialized (savable m) (m.id == 0) _ _ (==_ne m.id 0 named)
          h in
      let (j, placed, wrote, still, same) = save_at-eq-ok st m _ there in
      (
        savable-IsStorable m named good,
        still ∙ opened,
        same,
        j,
        slot_or_empty-IsPlace nvs m.id st.nvs_state placed,
        wrote,
      )

  -- The slots but the written one are read as before.
  others :
      (s : S) (j i : ℕ) (m : Message) {s' : S}
      → j < max_records
      → i < max_records
      → i ≢ j
      → write_slot nvs s j m ≡ (s', none)
      → load_slot nvs s' i ≡ load_slot nvs s i
  others s j i m high here differ wrote =
      load_slot-write_slot_other laws s j i m (omega (arith, high)) (omega (arith, here)) differ
        wrote

  -- A message that has an id and was saved without an error is what a get of that id gives.
  pub save-get :
      (st : Store S) (m : Message) {st' : Store S} {m' : Message}
      → m.id ≢ 0
      → save nvs st m ≡ (st', m', none)
      → (get nvs st' m.id ≡ ok (some m)) × (m' ≡ m)
  unfolding get find_id_slot
  save-get st m {st'} {m'} named h =
      let (fit, opened, same, j, (high, before, _, _, _), wrote) = save-Saved st m named h in
      let loaded = load_slot-write_slot laws st.nvs_state j m fit wrote in
      let kept = λ (i : ℕ) (low : 0 ≤ i) (below : i < j).
        subst (Skips (has_id m.id))
          (sym (others st.nvs_state j i m high (omega arith) (omega arith) wrote))
          (before i low below) in
      let found_id =
        first_from_stops nvs (has_id m.id) not_found st'.nvs_state max_records 0 j (some m)
          (omega arith, high, loaded, has_own_id m, kept) in
      (rw (opened, ==_ne m.id 0 named, found_id, loaded) refl, same)

  has_id-of_place :
      (id other : ℕ) (o : Option Message)
      → other ≢ id
      → (o ≡ none) ⊎ (has_id id o ≡ true)
      → has_id other o ≡ false
  unfolding has_id
  has_id-of_place id other none differ h = refl
  has_id-of_place id other (some m) differ h = ground arith

  reload_first :
      (s : S) (id : ℕ)
      → reload nvs s (slot_of (first_from nvs (has_id id) not_found s max_records 0))
        ≡ record_of nvs (first_from nvs (has_id id) not_found s max_records 0)
  reload_first s id = by_find _ refl
    where
      by_find :
          (x : Outcome (ℕ × Option Message))
          → first_from nvs (has_id id) not_found s max_records 0 ≡ x
          → reload nvs s (slot_of x) ≡ record_of nvs x
      by_find (fail e) reached = refl
      by_find (ok (j, o)) reached =
          let (_, _, loaded, _, _) =
            first_from-eq-ok nvs (has_id id) not_found s max_records 0 reached in
          loaded

  if_same :
      {A : Type 0} (c : Bool) (z : A) {x y : A}
      → x ≡ y
      → (if c then z else x) ≡ (if c then z else y)
  if_same c z h = rw h refl

  -- On an initialised store, a save without an error of a message that has an id leaves what a get of
  -- any other id gives.
  pub save-get_other :
      (st : Store S) (m : Message) (other : ℕ) {st' : Store S} {m' : Message}
      → st.initialized ≡ true
      → m.id ≢ 0
      → other ≢ m.id
      → save nvs st m ≡ (st', m', none)
      → get nvs st' other ≡ get nvs st other
  unfolding get find_id_slot
  save-get_other st m other {st'} {m'} open' named differ h =
      let (fit, opened, _, j, (high, _, o, was, kind), wrote) = save-Saved st m named h in
      let loaded = load_slot-write_slot laws st.nvs_state j m fit wrote in
      let skip_before : Skips (has_id other) (load_slot nvs st.nvs_state j) =
        rw was (has_id-of_place m.id other o differ kind) in
      let skip_after : Skips (has_id other) (load_slot nvs st'.nvs_state j) =
        rw loaded (has_id-of_place m.id other (some m) differ (inr (has_own_id m))) in
      let alike : Alike nvs (has_id other) st.nvs_state st'.nvs_state 0 max_records = λ i low below.
        elim (Bool-cases (i == j)) [
          | inl same ↦
              let e : i ≡ j = ground arith in
              inr (
                subst (λ n. Skips (has_id other) (load_slot nvs st.nvs_state n)) (sym e)
                    skip_before,
                subst (λ n. Skips (has_id other) (load_slot nvs st'.nvs_state n)) (sym e)
                    skip_after,
              )
          | inr apart ↦ inl (others st.nvs_state j i m high (omega arith) (ground arith) wrote)
        ] in
      let same_find =
        first_from-Alike nvs (has_id other) not_found st.nvs_state st'.nvs_state max_records 0
          alike in
      rw (opened, open')
        (if_same (other == 0) _ (
          reload_first st'.nvs_state other
          ∙ ap (record_of nvs) same_find
          ∙ sym (reload_first st.nvs_state other)))
