-- ===== src/Usb/Descriptor/Sort.antt =====
-- sort_candidates: the best score first, and the same candidates as before.
use esp32_sms_gateway.Base.{
  suc, ◌+◌, ◌≤◌, ◌≡◌, refl, List, [], ◌∷◌, ◌++◌, append-nil, length, ltb, All, arith, Bool-cases,
  inl, inr,
}
use mathlib.Core.List.Perm
use mathlib.Core.List.{Perm, perm_middle}
use esp32_sms_gateway.Usb.Descriptor.{
  Candidate, insert_back, sort_from, reverse_onto, sort_candidates,
}

-- Scores rise along the list.
abbrev IsRising : List Candidate → Type 0
IsRising [] = Unit
IsRising (c ∷ []) = Unit
IsRising (c ∷ d ∷ cs) = (c.score ≤ d.score) × IsRising (d ∷ cs)

-- Scores fall along the list.
abbrev pub IsFalling : List Candidate → Type 0
IsFalling [] = Unit
IsFalling (c ∷ []) = Unit
IsFalling (c ∷ d ∷ cs) = (d.score ≤ c.score) × IsFalling (d ∷ cs)

insert_back-IsRising :
    (c : Candidate) (cs : List Candidate) → IsRising cs → IsRising (insert_back c cs)
unfolding insert_back
insert_back-IsRising c [] h = tt
insert_back-IsRising c (d ∷ []) h = ground arith
insert_back-IsRising c (d ∷ e ∷ cs) h = ground (arith, insert_back-IsRising c (e ∷ cs) h.1)

sort_from-IsRising : (back cs : List Candidate) → IsRising back → IsRising (sort_from back cs)
unfolding sort_from
sort_from-IsRising back [] h = h
sort_from-IsRising back (c ∷ cs) h =
    sort_from-IsRising (insert_back c back) cs (insert_back-IsRising c back h)

-- The first of `out` scores no more than the last that stands in front of it.
abbrev Joins : List Candidate → List Candidate → Type 0
Joins [] out = Unit
Joins (c ∷ back) [] = Unit
Joins (c ∷ back) (d ∷ out) = d.score ≤ c.score

reverse_onto-IsFalling :
    (back out : List Candidate)
    → IsRising back
    → IsFalling out
    → Joins back out
    → IsFalling (reverse_onto back out)
unfolding reverse_onto
reverse_onto-IsFalling [] out h k j = k
reverse_onto-IsFalling (c ∷ []) [] h k j = tt
reverse_onto-IsFalling (c ∷ []) (d ∷ out) h k j = (j, k)
reverse_onto-IsFalling (c ∷ e ∷ back) [] h k j =
    reverse_onto-IsFalling (e ∷ back) (c ∷ []) h.1 tt h.0
reverse_onto-IsFalling (c ∷ e ∷ back) (d ∷ out) h k j =
    reverse_onto-IsFalling (e ∷ back) (c ∷ d ∷ out) h.1 (j, k) h.0

-- The sort moves candidates about, and loses and adds none.
insert_back-perm : (c : Candidate) (cs : List Candidate) → Perm (insert_back c cs) (c ∷ cs)
unfolding insert_back
insert_back-perm c [] = Perm.refl (c ∷ [])
insert_back-perm c (d ∷ cs) = elim (Bool-cases (ltb d.score c.score)) [
  | inl below ↦ rw below (Perm.trans (Perm.cons d (insert_back-perm c cs)) (Perm.swap c d cs))
  | inr here ↦ rw here (Perm.refl (c ∷ d ∷ cs))
]

sort_from-perm : (back cs : List Candidate) → Perm (sort_from back cs) (back ++ cs)
unfolding sort_from
sort_from-perm back [] = rw append-nil (Perm.refl back)
sort_from-perm back (c ∷ cs) = Perm.trans (sort_from-perm (insert_back c back) cs) (
    Perm.trans (Perm.append (insert_back-perm c back) (Perm.refl cs))
      (Perm.symm (perm_middle back cs)))

reverse_onto-perm : (back out : List Candidate) → Perm (reverse_onto back out) (back ++ out)
unfolding reverse_onto
reverse_onto-perm [] out = Perm.refl out
reverse_onto-perm (c ∷ back) out =
    Perm.trans (reverse_onto-perm back (c ∷ out)) (perm_middle back out)

Joins-nil : (back : List Candidate) → Joins back []
Joins-nil [] = tt
Joins-nil (c ∷ back) = tt

-- The sort gives the same candidates, with scores that fall.
pub sort_candidates_lem :
    (cs : List Candidate) → Perm (sort_candidates cs) cs × IsFalling (sort_candidates cs)
unfolding sort_candidates
sort_candidates_lem cs = (
  Perm.trans (reverse_onto-perm (sort_from [] cs) []) (rw append-nil (sort_from-perm [] cs)),
  reverse_onto-IsFalling (sort_from [] cs) [] (sort_from-IsRising [] cs tt) tt
      (Joins-nil (sort_from [] cs)),
)

module _ (P : Candidate → Type 0) where
  insert_back-All :
      (c : Candidate) (cs : List Candidate) → P c → All P cs → All P (insert_back c cs)
  unfolding insert_back
  insert_back-All c [] p h = (p, tt)
  insert_back-All c (d ∷ cs) p h = elim (Bool-cases (ltb d.score c.score)) [
    | inl below ↦ rw below (h.0, insert_back-All c cs p h.1)
    | inr here ↦ rw here (p, h)
  ]

  sort_from-All : (back cs : List Candidate) → All P back → All P cs → All P (sort_from back cs)
  unfolding sort_from
  sort_from-All back [] h k = h
  sort_from-All back (c ∷ cs) h k =
      sort_from-All (insert_back c back) cs (insert_back-All c back k.0 h) k.1

  reverse_onto-All :
      (back out : List Candidate) → All P back → All P out → All P (reverse_onto back out)
  unfolding reverse_onto
  reverse_onto-All [] out h k = k
  reverse_onto-All (c ∷ back) out h k = reverse_onto-All back (c ∷ out) h.1 (h.0, k)

  pub sort_candidates-All : (cs : List Candidate) → All P cs → All P (sort_candidates cs)
  unfolding sort_candidates
  sort_candidates-All cs h = reverse_onto-All (sort_from [] cs) [] (sort_from-All [] cs tt h) tt

length-insert_back :
    (c : Candidate) (cs : List Candidate) → length (insert_back c cs) ≡ suc (length cs)
unfolding insert_back
length-insert_back c [] = refl
length-insert_back c (d ∷ cs) = ground (arith, length-insert_back c cs)

length-sort_from : (back cs : List Candidate) → length (sort_from back cs) ≡ length back + length cs
unfolding sort_from
length-sort_from back [] = omega arith
length-sort_from back (c ∷ cs) =
    omega (arith, length-sort_from (insert_back c back) cs, length-insert_back c back)

length-reverse_onto :
    (back out : List Candidate) → length (reverse_onto back out) ≡ length back + length out
unfolding reverse_onto
length-reverse_onto [] out = omega arith
length-reverse_onto (c ∷ back) out = omega (arith, length-reverse_onto back (c ∷ out))

pub length-sort_candidates : (cs : List Candidate) → length (sort_candidates cs) ≡ length cs
unfolding sort_candidates
length-sort_candidates cs =
    omega (arith, length-reverse_onto (sort_from [] cs) [], length-sort_from [] cs)
