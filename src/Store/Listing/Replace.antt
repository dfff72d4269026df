-- ===== src/Store/Listing/Replace.antt =====
-- What takes the place of the highest record of a full listing.
use esp32_sms_gateway.Base.{
  ℕ, zero, suc, true, false, ◌+◌, ◌≤◌, ◌≡◌, ◌⊎◌, refl, sym, ap, subst, ◌∙◌, List, [], ◌∷◌, ◌++◌,
  length, length-set, set, All, arith, Bool-cases, inl, inr, ltb, if◌then◌else◌,
}
use esp32_sms_gateway.Store.Message.{Message}
use esp32_sms_gateway.Store.Listing.{highest_from, replace_highest}
use esp32_sms_gateway.Store.Listing.Sorted.{Has}
use esp32_sms_gateway.Store.Listing.Listed.{All-set}

-- The record at an index has the id.
abbrev AtIndex : List Message → ℕ → ℕ → Type 0
AtIndex [] i id = ⊥
AtIndex (m ∷ q) zero id = m.id ≡ id
AtIndex (m ∷ q) (suc i) id = AtIndex q i id

-- The record is listed, or the list is full of records that are not behind it.
abbrev pub Covered : ℕ → Message → List Message → Type 0
Covered max m q = Has m q ⊎ ((length q ≡ max) × All (λ r. r.id ≤ m.id) q)

All-le : (a b : ℕ) (q : List Message) → a ≤ b → All (λ m. m.id ≤ a) q → All (λ m. m.id ≤ b) q
All-le a b [] h k = tt
All-le a b (m ∷ q) h k = (omega (arith, k.0), All-le a b q h k.1)

AtIndex-le : (q : List Message) (i id b : ℕ) → AtIndex q i id → All (λ m. m.id ≤ b) q → id ≤ b
AtIndex-le (m ∷ q) zero id b h k = omega (arith, h, k.0)
AtIndex-le (m ∷ q) (suc i) id b h k = AtIndex-le q i id b h k.1
AtIndex-le [] i id b h k = absurd h

-- A record is put at an index, and only the one that was there goes.
Has-set_new : (q : List Message) (i id : ℕ) (x : Message) → AtIndex q i id → Has x (set q i x)
Has-set_new [] i id x h = absurd h
Has-set_new (m ∷ q) zero id x h = inl refl
Has-set_new (m ∷ q) (suc i) id x h = inr (Has-set_new q i id x h)

Has-set_other :
    (q : List Message) (i id : ℕ) (x m : Message)
    → AtIndex q i id
    → Has m q
    → Has m (set q i x) ⊎ (m.id ≡ id)
Has-set_other [] i id x m h k = absurd h
Has-set_other (r ∷ q) zero id x m h (inl e) = inr (sym (ap (λ r. r.id) e) ∙ h)
Has-set_other (r ∷ q) zero id x m h (inr k) = inl (inr k)
Has-set_other (r ∷ q) (suc i) id x m h (inl e) = inl (inl e)
Has-set_other (r ∷ q) (suc i) id x m h (inr k) = elim (Has-set_other q i id x m h k) [
  | inl there ↦ inl (inr there)
  | inr gone ↦ inr gone
]

pub Has-append_left : (m : Message) (q more : List Message) → Has m q → Has m (q ++ more)
Has-append_left m (r ∷ q) more (inl e) = inl e
Has-append_left m (r ∷ q) more (inr h) = inr (Has-append_left m q more h)
Has-append_left m [] more h = absurd h

pub Has-append_last : (m : Message) (q : List Message) → Has m (q ++ m ∷ [])
Has-append_last m [] = inl refl
Has-append_last m (r ∷ q) = inr (Has-append_last m q)

-- An answer of the search: the highest id, and an index that has it.
abbrev Finds : ℕ → ℕ → ℕ → List Message → ℕ × ℕ → Type 0
Finds index id i q top =
    (id ≤ top.1)
    × All (λ m. m.id ≤ top.1) q
    × ((top ≡ (index, id)) ⊎ ((k : ℕ) × (top.0 ≡ i + k) × AtIndex q k top.1))

Finds-above :
    (index id i : ℕ) (m : Message) (q : List Message) (top : ℕ × ℕ)
    → ltb id m.id ≡ true
    → Finds i m.id (i + 1) q top
    → Finds index id i (m ∷ q) top
Finds-above index id i m q top above (le, all, at) = (
  ground arith,
  (le, all),
  inr (elim at [
    | inl e ↦ (0, ap (λ r. r.0) e ∙ omega arith, sym (ap (λ r. r.1) e))
    | inr (k, e, a) ↦ (suc k, omega (arith, e), a)
  ]),
)

Finds-below :
    (index id i : ℕ) (m : Message) (q : List Message) (top : ℕ × ℕ)
    → ltb id m.id ≡ false
    → Finds index id (i + 1) q top
    → Finds index id i (m ∷ q) top
Finds-below index id i m q top below (le, all, at) = (
  le,
  (ground arith, all),
  elim at [ inl e ↦ inl e | inr (k, e, a) ↦ inr (suc k, omega (arith, e), a) ],
)

highest_from-Finds :
    (index id i : ℕ) (q : List Message) → Finds index id i q (highest_from index id i q)
highest_from-Finds index id i [] = unfold highest_from in (omega arith, tt, inl refl)
highest_from-Finds index id i (m ∷ q) = elim (Bool-cases (ltb id m.id)) [
  | inl above ↦
      let same : highest_from i m.id (i + 1) q ≡ highest_from index id i (m ∷ q) =
        unfold highest_from in rw above refl in
      subst (Finds index id i (m ∷ q)) same (
        Finds-above index id i m q (highest_from i m.id (i + 1) q) above
          (highest_from-Finds i m.id (i + 1) q))
  | inr below ↦
      let same : highest_from index id (i + 1) q ≡ highest_from index id i (m ∷ q) =
        unfold highest_from in rw below refl in
      subst (Finds index id i (m ∷ q)) same (
        Finds-below index id i m q (highest_from index id (i + 1) q) below
          (highest_from-Finds index id (i + 1) q))
]

highest_from-AtIndex :
    (r : Message) (q : List Message)
    → AtIndex (r ∷ q) (highest_from 0 r.id 1 q).0 (highest_from 0 r.id 1 q).1
      × All (λ m. m.id ≤ (highest_from 0 r.id 1 q).1) (r ∷ q)
highest_from-AtIndex r q =
    let (le, all, at) = highest_from-Finds 0 r.id 1 q in
    (
      elim at [
        | inl e ↦ rw e refl
        | inr (k, e, a) ↦
            subst (λ j. AtIndex (r ∷ q) j (highest_from 0 r.id 1 q).1)
              (let one : suc k ≡ 1 + k = omega arith in one ∙ sym e) a
      ],
      (le, all),
    )

pub replace_highest-Covered :
    (max : ℕ) (x m : Message) (q : List Message)
    → Covered max m q
    → length q ≡ max
    → Covered max m (replace_highest x q)
unfolding replace_highest
replace_highest-Covered max x m [] c full = c
replace_highest-Covered max x m (r ∷ q) c full =
    by_top (highest_from 0 r.id 1 q) (highest_from-AtIndex r q).0 (highest_from-AtIndex r q).1
  where
    by_top :
        (top : ℕ × ℕ)
        → AtIndex (r ∷ q) top.0 top.1
        → All (λ n. n.id ≤ top.1) (r ∷ q)
        → Covered max m (if ltb x.id top.1 then set (r ∷ q) top.0 x else r ∷ q)
    by_top (j, id) at all = elim (Bool-cases (ltb x.id id)) [
      | inr higher ↦ rw higher c
      | inl lower ↦
          let same = length-set (r ∷ q) j x ∙ full in
          rw lower (elim c [
            | inl h ↦ elim (Has-set_other (r ∷ q) j id x m at h) [
              | inl kept ↦ inl kept
              | inr gone ↦ inr (
                same,
                All-set (λ n. n.id ≤ m.id) (r ∷ q) j x (ground (arith, gone))
                    (All-le id m.id (r ∷ q) (omega (arith, gone)) all),
              )
            ]
            | inr (l, behind) ↦
                let le = AtIndex-le (r ∷ q) j id m.id at behind in
                inr (same, All-set (λ n. n.id ≤ m.id) (r ∷ q) j x (ground (arith, le)) behind)
          ])
    ]

pub replace_highest-new :
    (max : ℕ) (m : Message) (q : List Message)
    → length q ≡ max
    → Covered max m (replace_highest m q)
unfolding replace_highest
replace_highest-new max m [] full = inr (full, tt)
replace_highest-new max m (r ∷ q) full =
    by_top (highest_from 0 r.id 1 q) (highest_from-AtIndex r q).0 (highest_from-AtIndex r q).1
  where
    by_top :
        (top : ℕ × ℕ)
        → AtIndex (r ∷ q) top.0 top.1
        → All (λ n. n.id ≤ top.1) (r ∷ q)
        → Covered max m (if ltb m.id top.1 then set (r ∷ q) top.0 m else r ∷ q)
    by_top (j, id) at all = elim (Bool-cases (ltb m.id id)) [
      | inl lower ↦ rw lower (inl (Has-set_new (r ∷ q) j id m at))
      | inr higher ↦ rw higher (inr (full, All-le id m.id (r ∷ q) (ground arith) all))
    ]

pub replace_highest-All :
    (P : Message → Type 0) (m : Message) (q : List Message)
    → P m
    → All P q
    → All P (replace_highest m q)
unfolding replace_highest
replace_highest-All P m [] p h = h
replace_highest-All P m (r ∷ q) p h = by_top (highest_from 0 r.id 1 q)
  where
    by_top : (top : ℕ × ℕ) → All P (if ltb m.id top.1 then set (r ∷ q) top.0 m else r ∷ q)
    by_top (j, id) = elim (Bool-cases (ltb m.id id)) [
      | inl lower ↦ rw lower (All-set P (r ∷ q) j m p h)
      | inr higher ↦ rw higher h
    ]
