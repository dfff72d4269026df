-- ===== src/Store/Listing/Complete.antt =====
-- What a listing leaves out: only records behind those that it gives.
use esp32_sms_gateway.Base.{
  ℕ, zero, suc, false, ◌+◌, ◌≤◌, ◌<◌, ◌≡◌, ◌⊎◌, refl, sym, ap, subst, ◌∙◌, not, ◌||◌, Option, none,
  some, List, [], ◌∷◌, length, All, All-append, arith, Bool-cases, inl, inr, ltb, leb, ◌==◌,
}
use esp32_sms_gateway.Store.Message.{Message}
use esp32_sms_gateway.Store.Slots.{ok, Nvs, load_slot, max_records}
use esp32_sms_gateway.Store.Slots.Lowest.{and_then-eq-ok}
use esp32_sms_gateway.Store.Operations.{Store}
use esp32_sms_gateway.Store.Listing.{insertion_sort, collect, fold_from, list}
use esp32_sms_gateway.Store.Listing.Sorted.{
  Has, IsAscending, insertion_sort-All, insertion_sort-Has, length-insertion_sort,
}
use esp32_sms_gateway.Store.Listing.Listed.{IsPage, collect-IsPage, list_lem}
use esp32_sms_gateway.Store.Listing.Replace.{
  Covered, Has-append_left, Has-append_last, replace_highest-Covered, replace_highest-new,
  replace_highest-All,
}

collect-Covered :
    (after_id max : ℕ) (m : Message) (q : List Message) (o : Option Message)
    → length q ≤ max
    → Covered max m q
    → Covered max m (collect after_id max q o)
unfolding collect
collect-Covered after_id max m q none few c = c
collect-Covered after_id max m q (some x) few c = elim (Bool-cases (leb x.id after_id)) [
  | inl early ↦ rw early c
  | inr late ↦ elim (Bool-cases (ltb (length q) max)) [
    | inr full ↦ rw (late, full) (replace_highest-Covered max x m q c (ground arith))
    | inl room ↦
        rw (late, room)
          (elim c [
            | inl h ↦ inl (Has-append_left m q (x ∷ []) h)
            | inr (l, behind) ↦ absurd (ground (arith, l))
          ])
  ]
]

collect-new :
    (after_id max : ℕ) (m : Message) (q : List Message)
    → length q ≤ max
    → after_id < m.id
    → Covered max m (collect after_id max q (some m))
unfolding collect
collect-new after_id max m q few behind =
    let late : leb m.id after_id ≡ false = ground arith in
    elim (Bool-cases (ltb (length q) max)) [
      | inr full ↦ rw (late, full) (replace_highest-new max m q (ground arith))
      | inl room ↦ rw (late, room) (inl (Has-append_last m q))
    ]

collect-All :
    (P : Message → Type 0) (after_id max : ℕ) (q : List Message) (o : Option Message)
    → ((m : Message) → o ≡ some m → P m)
    → All P q
    → All P (collect after_id max q o)
unfolding collect
collect-All P after_id max q none p h = h
collect-All P after_id max q (some m) p h = elim (Bool-cases (leb m.id after_id)) [
  | inl early ↦ rw early h
  | inr late ↦ elim (Bool-cases (ltb (length q) max)) [
    | inl room ↦ rw (late, room) (All-append P q (m ∷ []) h (p m refl, tt))
    | inr full ↦ rw (late, full) (replace_highest-All P m q (p m refl) h)
  ]
]

module _ {S : Type 0} (nvs : Nvs S) where
  -- A slot holds the record.
  abbrev pub IsHeld : S → Message → Type 0
  IsHeld s m = (k : ℕ) × (k < max_records) × (load_slot nvs s k ≡ ok (some m))

  fold_from-reads :
      {R : Type 0} (P : ℕ → R → Type 0) (round : ℕ → R → Option Message → R) (s : S)
      (slots slot end : ℕ) (r : R) {r' : R}
      → slot + slots ≡ end
      → ((i : ℕ) (q : R) (o : Option Message)
          → i < end
          → load_slot nvs s i ≡ ok o
          → P i q
          → P (suc i) (round i q o))
      → P slot r
      → fold_from nvs round s slots slot r ≡ ok r'
      → P end r'
  unfolding fold_from
  fold_from-reads P round s zero slot end r {r'} e step p h =
      let same : r ≡ r' = cc in
      let here : slot ≡ end = omega (arith, e) in subst (P end) same (subst (λ i. P i r) here p)
  fold_from-reads P round s (suc slots) slot end r e step p h =
      let (o, loaded, rest) =
        and_then-eq-ok (load_slot nvs s slot)
          (λ o. fold_from nvs round s slots (suc slot) (round slot r o)) h in
      fold_from-reads P round s slots (suc slot) end (round slot r o) (omega (arith, e)) step
        (step slot r o (omega (arith, e)) loaded p) rest

  -- What holds of the records so far, before slot `i`, for the record `m` of slot `t`.
  abbrev SoFar : S → ℕ → ℕ → ℕ → Message → ℕ → List Message → Type 0
  SoFar s after_id max t m i q =
      All (IsHeld s) q × IsPage after_id max q × ((i ≤ t) ⊎ Covered max m q)

  collect-SoFar :
      (s : S) (after_id max t : ℕ) (m : Message) (i : ℕ) (q : List Message) (o : Option Message)
      → load_slot nvs s t ≡ ok (some m)
      → after_id < m.id
      → i < max_records
      → load_slot nvs s i ≡ ok o
      → SoFar s after_id max t m i q
      → SoFar s after_id max t m (suc i) (collect after_id max q o)
  collect-SoFar s after_id max t m i q o there behind low loaded (held, page, c) = (
    collect-All (IsHeld s) after_id max q o (λ x e. (i, low, loaded ∙ ap ok e)) held,
    collect-IsPage after_id max q o page,
    elim c [
      | inr covered ↦ inr (collect-Covered after_id max m q o page.1 covered)
      | inl before ↦ elim (Bool-cases (i == t)) [
        | inr differ ↦ inl (ground arith)
        | inl same ↦
            let at : i ≡ t = ground arith in
            let read : ok o ≡ ok (some m) = sym loaded ∙ ap (load_slot nvs s) at ∙ there in
            let it : o ≡ some m = cc in
            inr (
              subst (λ x. Covered max m (collect after_id max q x)) (sym it)
                (collect-new after_id max m q page.1 behind))
      ]
    ],
  )

  -- For each record with a higher id than the given one in a readable slot: a listing has it, or has as many
  -- records as were asked for and none with a higher id than it. The records of a listing are held in slots
  -- and have higher ids than the given one, are no more than asked for, and stand in the order of their ids.
  pub list-IsHeld :
      (st : Store S) (after_id max slot : ℕ) (m : Message) {records : List Message}
      → slot < max_records
      → load_slot nvs st.nvs_state slot ≡ ok (some m)
      → after_id < m.id
      → list nvs st after_id max ≡ ok records
      → (Has m records ⊎ ((length records ≡ max) × All (λ r. r.id ≤ m.id) records))
        × All (IsHeld st.nvs_state) records
        × All (λ r. after_id < r.id) records
        × (length records ≤ max)
        × IsAscending records
  unfolding list
  list-IsHeld st after_id max slot m {records} low there behind h =
      elim (Bool-cases (not st.initialized || max == 0)) [
        | inl refused ↦ cc (rw refused at h)
        | inr accepted ↦
            let (found, looped, sorted) =
              and_then-eq-ok
                (fold_from nvs (λ slot. collect after_id max) st.nvs_state max_records 0 [])
                (λ found. ok (insertion_sort found)) (rw accepted at h) in
            let (held, page, c) =
              fold_from-reads (SoFar st.nvs_state after_id max slot m)
                (λ slot. collect after_id max) st.nvs_state max_records 0 max_records []
                (omega arith)
                (λ i q o small loaded.
                  collect-SoFar st.nvs_state after_id max slot m i q o there behind small loaded)
                (tt, (tt, omega arith), inl (omega arith)) looped in
            let same : insertion_sort found ≡ records = cc in
            let (late, few, ascending) = list_lem nvs st after_id max h in
            (
              subst (Covered max m) same (elim c [
                | inl before ↦ absurd (omega (arith, before, low))
                | inr (inl has) ↦ inl (insertion_sort-Has m found has)
                | inr (inr (full, all)) ↦ inr (
                  length-insertion_sort found ∙ full,
                  insertion_sort-All (λ r. r.id ≤ m.id) found all,
                )
              ]),
              subst (All (IsHeld st.nvs_state)) same
                  (insertion_sort-All (IsHeld st.nvs_state) found held),
              late,
              few,
              ascending,
            )
      ]
