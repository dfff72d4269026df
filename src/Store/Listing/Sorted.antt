-- ===== src/Store/Listing/Sorted.antt =====
-- insertion_sort of the store: ids rise, and the records are the same as before.
use esp32_sms_gateway.Base.{
  ◌⊎◌, suc, ◌+◌, ◌≤◌, ◌≡◌, refl, List, [], ◌∷◌, ◌++◌, append-nil, length, ltb, All, arith,
  Bool-cases, inl, inr,
}
use mathlib.Core.List.Perm
use mathlib.Core.List.{Perm, perm_middle}
use esp32_sms_gateway.Store.Message.{Message}
use esp32_sms_gateway.Store.Listing.{shift_back, sort_onto, unwind, insertion_sort}

-- Ids fall along the list.
abbrev IsDescending : List Message → Type 0
IsDescending [] = Unit
IsDescending (c ∷ []) = Unit
IsDescending (c ∷ d ∷ cs) = (d.id ≤ c.id) × IsDescending (d ∷ cs)

-- Ids rise along the list.
abbrev pub IsAscending : List Message → Type 0
IsAscending [] = Unit
IsAscending (c ∷ []) = Unit
IsAscending (c ∷ d ∷ cs) = (c.id ≤ d.id) × IsAscending (d ∷ cs)

shift_back-IsDescending :
    (c : Message) (cs : List Message) → IsDescending cs → IsDescending (shift_back c cs)
unfolding shift_back
shift_back-IsDescending c [] h = tt
shift_back-IsDescending c (d ∷ []) h = ground arith
shift_back-IsDescending c (d ∷ e ∷ cs) h = ground (arith, shift_back-IsDescending c (e ∷ cs) h.1)

sort_onto-IsDescending :
    (back cs : List Message) → IsDescending back → IsDescending (sort_onto back cs)
unfolding sort_onto
sort_onto-IsDescending back [] h = h
sort_onto-IsDescending back (c ∷ cs) h =
    sort_onto-IsDescending (shift_back c back) cs (shift_back-IsDescending c back h)

-- The first of `out` has no lower id than the last that stands in front of it.
abbrev Joins : List Message → List Message → Type 0
Joins [] out = Unit
Joins (c ∷ back) [] = Unit
Joins (c ∷ back) (d ∷ out) = c.id ≤ d.id

unwind-IsAscending :
    (back out : List Message)
    → IsDescending back
    → IsAscending out
    → Joins back out
    → IsAscending (unwind back out)
unfolding unwind
unwind-IsAscending [] out h k j = k
unwind-IsAscending (c ∷ []) [] h k j = tt
unwind-IsAscending (c ∷ []) (d ∷ out) h k j = (j, k)
unwind-IsAscending (c ∷ e ∷ back) [] h k j = unwind-IsAscending (e ∷ back) (c ∷ []) h.1 tt h.0
unwind-IsAscending (c ∷ e ∷ back) (d ∷ out) h k j =
    unwind-IsAscending (e ∷ back) (c ∷ d ∷ out) h.1 (j, k) h.0

-- The sort moves records about, and loses and adds none.
shift_back-perm : (c : Message) (cs : List Message) → Perm (shift_back c cs) (c ∷ cs)
unfolding shift_back
shift_back-perm c [] = Perm.refl (c ∷ [])
shift_back-perm c (d ∷ cs) = elim (Bool-cases (ltb c.id d.id)) [
  | inl below ↦ rw below (Perm.trans (Perm.cons d (shift_back-perm c cs)) (Perm.swap c d cs))
  | inr here ↦ rw here (Perm.refl (c ∷ d ∷ cs))
]

sort_onto-perm : (back cs : List Message) → Perm (sort_onto back cs) (back ++ cs)
unfolding sort_onto
sort_onto-perm back [] = rw append-nil (Perm.refl back)
sort_onto-perm back (c ∷ cs) = Perm.trans (sort_onto-perm (shift_back c back) cs) (
    Perm.trans (Perm.append (shift_back-perm c back) (Perm.refl cs))
      (Perm.symm (perm_middle back cs)))

unwind-perm : (back out : List Message) → Perm (unwind back out) (back ++ out)
unfolding unwind
unwind-perm [] out = Perm.refl out
unwind-perm (c ∷ back) out = Perm.trans (unwind-perm back (c ∷ out)) (perm_middle back out)

Joins-nil : (back : List Message) → Joins back []
Joins-nil [] = tt
Joins-nil (c ∷ back) = tt

-- The sort gives the same records, with ids that rise.
pub insertion_sort_lem :
    (cs : List Message) → Perm (insertion_sort cs) cs × IsAscending (insertion_sort cs)
unfolding insertion_sort
insertion_sort_lem cs = (
  Perm.trans (unwind-perm (sort_onto [] cs) []) (rw append-nil (sort_onto-perm [] cs)),
  unwind-IsAscending (sort_onto [] cs) [] (sort_onto-IsDescending [] cs tt) tt
      (Joins-nil (sort_onto [] cs)),
)

module _ (P : Message → Type 0) where
  shift_back-All : (c : Message) (cs : List Message) → P c → All P cs → All P (shift_back c cs)
  unfolding shift_back
  shift_back-All c [] p h = (p, tt)
  shift_back-All c (d ∷ cs) p h = elim (Bool-cases (ltb c.id d.id)) [
    | inl below ↦ rw below (h.0, shift_back-All c cs p h.1)
    | inr here ↦ rw here (p, h)
  ]

  sort_onto-All : (back cs : List Message) → All P back → All P cs → All P (sort_onto back cs)
  unfolding sort_onto
  sort_onto-All back [] h k = h
  sort_onto-All back (c ∷ cs) h k =
      sort_onto-All (shift_back c back) cs (shift_back-All c back k.0 h) k.1

  unwind-All : (back out : List Message) → All P back → All P out → All P (unwind back out)
  unfolding unwind
  unwind-All [] out h k = k
  unwind-All (c ∷ back) out h k = unwind-All back (c ∷ out) h.1 (h.0, k)

  pub insertion_sort-All : (cs : List Message) → All P cs → All P (insertion_sort cs)
  unfolding insertion_sort
  insertion_sort-All cs h = unwind-All (sort_onto [] cs) [] (sort_onto-All [] cs tt h) tt

-- The record is in the list.
abbrev pub Has : Message → List Message → Type 0
Has m [] = ⊥
Has m (r ∷ q) = (r ≡ m) ⊎ Has m q

module _ (m : Message) where
  shift_back-Has : (c : Message) (cs : List Message) → Has m (c ∷ cs) → Has m (shift_back c cs)
  unfolding shift_back
  shift_back-Has c [] h = h
  shift_back-Has c (d ∷ cs) h = elim (Bool-cases (ltb c.id d.id)) [
    | inr here ↦ rw here h
    | inl below ↦ rw below (elim h [
      | inl e ↦ inr (shift_back-Has c cs (inl e))
      | inr (inl e) ↦ inl e
      | inr (inr k) ↦ inr (shift_back-Has c cs (inr k))
    ])
  ]

  sort_onto-Has : (back cs : List Message) → Has m back ⊎ Has m cs → Has m (sort_onto back cs)
  unfolding sort_onto
  sort_onto-Has back [] (inl h) = h
  sort_onto-Has back [] (inr h) = absurd h
  sort_onto-Has back (c ∷ cs) (inl h) =
      sort_onto-Has (shift_back c back) cs (inl (shift_back-Has c back (inr h)))
  sort_onto-Has back (c ∷ cs) (inr (inl e)) =
      sort_onto-Has (shift_back c back) cs (inl (shift_back-Has c back (inl e)))
  sort_onto-Has back (c ∷ cs) (inr (inr h)) = sort_onto-Has (shift_back c back) cs (inr h)

  unwind-Has : (back out : List Message) → Has m back ⊎ Has m out → Has m (unwind back out)
  unfolding unwind
  unwind-Has [] out (inl h) = absurd h
  unwind-Has [] out (inr h) = h
  unwind-Has (c ∷ back) out (inl (inl e)) = unwind-Has back (c ∷ out) (inr (inl e))
  unwind-Has (c ∷ back) out (inl (inr h)) = unwind-Has back (c ∷ out) (inl h)
  unwind-Has (c ∷ back) out (inr h) = unwind-Has back (c ∷ out) (inr (inr h))

  pub insertion_sort-Has : (cs : List Message) → Has m cs → Has m (insertion_sort cs)
  unfolding insertion_sort
  insertion_sort-Has cs h = unwind-Has (sort_onto [] cs) [] (inl (sort_onto-Has [] cs (inr h)))

length-shift_back : (c : Message) (cs : List Message) → length (shift_back c cs) ≡ suc (length cs)
unfolding shift_back
length-shift_back c [] = refl
length-shift_back c (d ∷ cs) = ground (arith, length-shift_back c cs)

length-sort_onto : (back cs : List Message) → length (sort_onto back cs) ≡ length back + length cs
unfolding sort_onto
length-sort_onto back [] = omega arith
length-sort_onto back (c ∷ cs) =
    omega (arith, length-sort_onto (shift_back c back) cs, length-shift_back c back)

length-unwind : (back out : List Message) → length (unwind back out) ≡ length back + length out
unfolding unwind
length-unwind [] out = omega arith
length-unwind (c ∷ back) out = omega (arith, length-unwind back (c ∷ out))

pub length-insertion_sort : (cs : List Message) → length (insertion_sort cs) ≡ length cs
unfolding insertion_sort
length-insertion_sort cs = omega (arith, length-unwind (sort_onto [] cs) [], length-sort_onto [] cs)
