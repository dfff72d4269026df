-- ===== src/Modem/Recovery/Rounds.antt =====
-- A full cycle of recovery: one reinitialisation, functional resets, one hard reset.
use esp32_sms_gateway.Base.{
  ℕ, zero, suc, ◌+◌, ◌-◌, ◌<◌, ◌≤◌, ◌≡◌, ◌^◌, [], ◌∷◌, ◌++◌, replicate, arith,
}
use native.Mathlib.Numerals.{add-one}
use esp32_sms_gateway.Modem.Recovery.{
  reinitialize, functional_reset, hard_reset, next_action, rounds_of,
}

module _ (failures threshold after : ℕ) (enabled : 0 < threshold) (reached : threshold ≤ failures)
    (fits : after + 1 < 2 ^ 32) where
  -- The functional resets that are left, and then the hard reset.
  rounds_of_later :
      (n rounds : ℕ)
      → 0 < rounds
      → rounds + n ≡ after
      → rounds_of failures threshold after (suc n) rounds
        ≡ (0, replicate n functional_reset ++ hard_reset ∷ [])
  unfolding rounds_of next_action
  rounds_of_later zero rounds pos e = ground arith
  rounds_of_later (suc n) rounds pos e = ground (arith, rounds_of_later n (rounds + 1))

-- Once the threshold of failures is reached, the rounds from a hard reset to the next are one
-- reinitialisation, `after - 1` functional resets and one hard reset, for every `after` from 1 on
-- that a uint32_t counts past.
pub rounds_of_cycle :
    (failures threshold after : ℕ)
    → 0 < threshold
    → threshold ≤ failures
    → 0 < after
    → after + 1 < 2 ^ 32
    → rounds_of failures threshold after (after + 1) 0
      ≡ (0, reinitialize ∷ (replicate (after - 1) functional_reset ++ hard_reset ∷ []))
unfolding rounds_of next_action
rounds_of_cycle failures threshold zero enabled reached positive fits = absurd (omega arith)
rounds_of_cycle failures threshold (suc a) enabled reached positive fits =
    rw (add-one (suc a))
      (ground (arith, rounds_of_later failures threshold (suc a) enabled reached fits a 1))
