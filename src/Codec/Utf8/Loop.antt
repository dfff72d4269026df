-- ===== src/Codec/Utf8/Loop.antt =====
-- The loop over the code points of a text: one round of it, and its fuel.
use esp32_sms_gateway.Base.{
  ℕ, zero, suc, ◌≤◌, ◌≡◌, refl, Option, none, some, [], ◌∷◌, length, arith, Bytes, ◌>>=◌,
  >>=-eq-some,
}
use esp32_sms_gateway.Codec.Utf8.{utf8_next, utf8_loop}

-- A code point takes a byte at least.
pub length-utf8_next :
    (c : ℕ) (s : Bytes) {cp : ℕ} {rest : Bytes}
    → utf8_next (c ∷ s) ≡ some (cp, rest)
    → length rest ≤ length s
unfolding utf8_next
length-utf8_next c [] h = ground arith
length-utf8_next c (b1 ∷ []) h = ground arith
length-utf8_next c (b1 ∷ b2 ∷ []) h = ground arith
length-utf8_next c (b1 ∷ b2 ∷ b3 ∷ s) h = ground arith

module _ {S : Type 0} (body : S → ℕ → Option S) where
  -- A round that goes through.
  pub utf8_loop_round :
      (fuel c : ℕ) (s : Bytes) (st : S) {cp : ℕ} {rest : Bytes} {st' : S}
      → utf8_next (c ∷ s) ≡ some (cp, rest)
      → body st cp ≡ some st'
      → utf8_loop body (suc fuel) (c ∷ s) st ≡ utf8_loop body fuel rest st'
  unfolding utf8_loop
  utf8_loop_round fuel c s st read stepped = rw (read, stepped)

  -- A loop that ends well has gone through its first round.
  pub utf8_loop-eq-some :
      (fuel c : ℕ) (s : Bytes) (st : S) {r : S}
      → utf8_loop body (suc fuel) (c ∷ s) st ≡ some r
      → (cp : ℕ) × (rest : Bytes) × (st' : S) × (utf8_next (c ∷ s) ≡ some (cp, rest))
        × (body st cp ≡ some st')
        × (utf8_loop body fuel rest st' ≡ some r)
  unfolding utf8_loop
  utf8_loop-eq-some fuel c s st h =
      let ((cp, rest), read, later) = >>=-eq-some (utf8_next (c ∷ s)) _ h in
      let (st', stepped, looped) = >>=-eq-some (body st cp) _ later in
      (cp, rest, st', read, stepped, looped)

  -- Fuel for each byte of the text is enough: more of it changes nothing.
  pub utf8_loop_fuel :
      (fuel more : ℕ) (s : Bytes) (st : S)
      → length s ≤ fuel
      → length s ≤ more
      → utf8_loop body fuel s st ≡ utf8_loop body more s st
  unfolding utf8_loop
  utf8_loop_fuel fuel more [] st h k = ground arith
  utf8_loop_fuel zero more (c ∷ s) st h k = absurd (omega arith)
  utf8_loop_fuel (suc fuel) zero (c ∷ s) st h k = absurd (omega arith)
  utf8_loop_fuel (suc fuel) (suc more) (c ∷ s) st h k =
      by_read (utf8_next (c ∷ s)) refl (utf8_loop_fuel fuel more)
    where
      Same : Bytes → S → Type 0
      Same rest st' =
          length rest ≤ fuel
          → length rest ≤ more
          → utf8_loop body fuel rest st' ≡ utf8_loop body more rest st'

      by_body :
          (rest : Bytes) (o : Option S)
          → length rest ≤ length s
          → ((rest : Bytes) (st' : S) → Same rest st')
          → (o >>= λ st'. utf8_loop body fuel rest st')
            ≡ (o >>= λ st'. utf8_loop body more rest st')
      by_body rest none l ih = refl
      by_body rest (some st') l ih = ih rest st' (omega arith) (omega arith)

      by_read :
          (o : Option (ℕ × Bytes))
          → utf8_next (c ∷ s) ≡ o
          → ((rest : Bytes) (st' : S) → Same rest st')
          → utf8_loop body (suc fuel) (c ∷ s) st ≡ utf8_loop body (suc more) (c ∷ s) st
      by_read none e ih = rw e
      by_read (some (cp, rest)) e ih = rw e (by_body rest (body st cp) (length-utf8_next c s e) ih)
