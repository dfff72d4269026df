-- ===== src/Store/Listing/Listed.antt =====
-- What a listing gives.
use esp32_sms_gateway.Base.{
  ℕ, zero, suc, ◌≤◌, ◌<◌, ◌≡◌, subst, not, ◌||◌, Option, none, some, List, [], ◌∷◌, length,
  length-append, length-set, set, All, All-append, arith, Bool-cases, inl, inr, ltb, leb, ◌==◌,
  if◌then◌else◌,
}
use esp32_sms_gateway.Store.Message.{Message}
use esp32_sms_gateway.Store.Slots.{ok, Nvs, load_slot, max_records}
use esp32_sms_gateway.Store.Slots.Lowest.{and_then-eq-ok}
use esp32_sms_gateway.Store.Operations.{Store}
use esp32_sms_gateway.Store.Listing.{
  insertion_sort, highest_from, replace_highest, collect, fold_from, list,
}
use esp32_sms_gateway.Store.Listing.Sorted.{
  IsAscending, insertion_sort_lem, insertion_sort-All, length-insertion_sort,
}

-- Records behind an id, no more than asked for.
abbrev pub IsPage : ℕ → ℕ → List Message → Type 0
IsPage after_id max records = All (λ m. after_id < m.id) records × (length records ≤ max)

pub All-set :
    {A : Type 0} (P : A → Type 0) (xs : List A) (i : ℕ) (v : A)
    → P v
    → All P xs
    → All P (set xs i v)
All-set P [] i v p h = tt
All-set P (x ∷ xs) zero v p h = (p, h.1)
All-set P (x ∷ xs) (suc i) v p h = (h.0, All-set P xs i v p h.1)

replace_highest-IsPage :
    (after_id max : ℕ) (m : Message) (records : List Message)
    → after_id < m.id
    → IsPage after_id max records
    → IsPage after_id max (replace_highest m records)
unfolding replace_highest
replace_highest-IsPage after_id max m [] p h = h
replace_highest-IsPage after_id max m (r ∷ records) p h = by_highest (highest_from 0 r.id 1 records)
  where
    by_highest :
        (top : ℕ × ℕ)
        → IsPage after_id max (if ltb m.id top.1 then set (r ∷ records) top.0 m else r ∷ records)
    by_highest (highest, id) = elim (Bool-cases (ltb m.id id)) [
      | inl lower ↦ rw lower (
        All-set (λ n. after_id < n.id) (r ∷ records) highest m p h.0,
        omega (arith, h.1, length-set (r ∷ records) highest m),
      )
      | inr higher ↦ rw higher h
    ]

pub collect-IsPage :
    (after_id max : ℕ) (records : List Message) (o : Option Message)
    → IsPage after_id max records
    → IsPage after_id max (collect after_id max records o)
unfolding collect
collect-IsPage after_id max records none h = h
collect-IsPage after_id max records (some m) h = elim (Bool-cases (leb m.id after_id)) [
  | inl early ↦ rw early h
  | inr late ↦
      let behind : after_id < m.id = ground arith in
      elim (Bool-cases (ltb (length records) max)) [
        | inl room ↦
            rw (late, room)
              (
                All-append (λ n. after_id < n.id) records (m ∷ []) h.0 (behind, tt),
                ground (arith, length-append records (m ∷ [])),
              )
        | inr full ↦ rw (late, full) (replace_highest-IsPage after_id max m records behind h)
      ]
]

module _ {S : Type 0} (nvs : Nvs S) where
  fold_from-keeps :
      {R : Type 0} (P : R → Type 0) (round : ℕ → R → Option Message → R) (s : S) (slots slot : ℕ)
      (r : R) {r' : R}
      → ((i : ℕ) (q : R) (o : Option Message) → P q → P (round i q o))
      → P r
      → fold_from nvs round s slots slot r ≡ ok r'
      → P r'
  unfolding fold_from
  fold_from-keeps P round s zero slot r {r'} keeps p h = let same : r ≡ r' = cc in subst P same p
  fold_from-keeps P round s (suc slots) slot r keeps p h =
      let (o, loaded, rest) =
        and_then-eq-ok (load_slot nvs s slot)
          (λ o. fold_from nvs round s slots (suc slot) (round slot r o)) h in
      fold_from-keeps P round s slots (suc slot) (round slot r o) keeps (keeps slot r o p) rest

  -- A listing has records with higher ids than the given one, no more than asked for, in the order of
  -- their ids.
  pub list_lem :
      (st : Store S) (after_id max : ℕ) {records : List Message}
      → list nvs st after_id max ≡ ok records
      → All (λ m. after_id < m.id) records × (length records ≤ max) × IsAscending records
  unfolding list
  list_lem st after_id max {records} h = elim (Bool-cases (not st.initialized || max == 0)) [
    | inl refused ↦ cc (rw refused at h)
    | inr accepted ↦
        let (found, looped, sorted) =
          and_then-eq-ok
            (fold_from nvs (λ slot. collect after_id max) st.nvs_state max_records 0 [])
            (λ found. ok (insertion_sort found)) (rw accepted at h) in
        let page =
          fold_from-keeps (IsPage after_id max) (λ slot. collect after_id max) st.nvs_state
            max_records 0 [] (λ i. collect-IsPage after_id max) (tt, omega arith) looped in
        let same : insertion_sort found ≡ records = cc in
        subst (λ l. All (λ m. after_id < m.id) l × (length l ≤ max) × IsAscending l) same
          (
            insertion_sort-All (λ m. after_id < m.id) found page.0,
            omega (arith, page.1, length-insertion_sort found),
            (insertion_sort_lem found).1,
          )
  ]
