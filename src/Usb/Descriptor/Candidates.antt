-- ===== src/Usb/Descriptor/Candidates.antt =====
-- What the search gives: real serial interfaces, no more than asked for, the best first.
use esp32_sms_gateway.Base.{
  ℕ, zero, suc, ◌+◌, ◌/◌, ◌%◌, ◌⊎◌, if◌then◌else◌, ◌≤◌, ◌≡◌, ◌≢◌, refl, ◌||◌, List, [], ◌∷◌, length,
  drop, length-drop, ltb, ◌==◌, Bytes, All, arith, Bool-cases, inl, inr,
}
use esp32_sms_gateway.Usb.Descriptor.{Candidate, Scan, visit, walk}

-- An interface that can carry AT commands, with its score: bit 7 of an address is set for a direction
-- towards the host.
pub record IsSerial (c : Candidate) : Type 0 where
  pub vendor : c.interface_class ≡ 0xFF
  pub has_in : c.bulk_in_ep / 128 % 2 ≡ 1
  pub has_out : c.bulk_out_ep ≢ 0
  pub is_out : c.bulk_out_ep / 128 % 2 ≡ 0
  pub scored :
      c.score
      ≡ (if c.interface_protocol == 1 then 110 else if c.interface_protocol == 18 then 60 else 10)
        + (if c.interrupt_in_ep == 0 then 0 else 10)

pub record IsFound (max_candidates : ℕ) (cs : List Candidate) : Type 0 where
  pub serial : All IsSerial cs
  pub fits : length cs ≤ max_candidates

-- The bulk endpoints that are noted of an interface have their directions.
abbrev Directed : Candidate → Type 0
Directed c = ((c.bulk_in_ep ≡ 0) ⊎ (c.bulk_in_ep / 128 % 2 ≡ 1)) × (c.bulk_out_ep / 128 % 2 ≡ 0)

-- What holds between two rounds of the scan.
pub record IsValid (m : ℕ) (s : Scan) : Type 0 where
  pub found : IsFound m s.candidates
  pub directed : Directed s.current

-- A round takes two bytes at least, so fuel for each byte is enough: more of it changes nothing.
pub walk_fuel :
    (fuel more m : ℕ) (s : Scan) (d : Bytes)
    → length d ≤ fuel
    → length d ≤ more
    → walk fuel m s d ≡ walk more m s d
unfolding walk
walk_fuel fuel more m s [] h k = refl
walk_fuel fuel more m s (len ∷ []) h k = refl
walk_fuel zero more m s (len ∷ kind ∷ d) h k = absurd (omega arith)
walk_fuel (suc fuel) zero m s (len ∷ kind ∷ d) h k = absurd (omega arith)
walk_fuel (suc fuel) (suc more) m s (len ∷ kind ∷ d) h k =
    elim (Bool-cases (ltb len 2 || ltb (length (len ∷ kind ∷ d)) len)) [
      | inl stop ↦ rw stop
      | inr go ↦ rw go (
          walk_fuel fuel more m (visit m s len kind (len ∷ kind ∷ d)) (drop len (len ∷ kind ∷ d))
            (shorter fuel (ground arith) h) (shorter more (ground arith) k))
    ]
  where
    shorter :
        (f : ℕ) → 2 ≤ len → length (len ∷ kind ∷ d) ≤ suc f → length (drop len (len ∷ kind ∷ d)) ≤ f
    shorter f two l = omega (arith, length-drop len (len ∷ kind ∷ d))
