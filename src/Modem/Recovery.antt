-- ===== src/Modem/Recovery.antt =====
-- components/modem_manager/modem_recovery_policy.c. `none` is a NULL round counter.
pub mod Rounds
use esp32_sms_gateway.Base.{
  ℕ, zero, suc, ◌+◌, ◌%◌, ◌^◌, Bool, true, false, ◌||◌, Option, none, some, List, [], ◌∷◌, ltb, leb,
  ◌==◌, if◌then◌else◌,
}

-- modem_recovery_action_t
pub data Action : Type 0 where
  no_action reinitialize functional_reset hard_reset : Action

-- modem_recovery_policy_next on a counter: the counter after it, and the action.
unfoldable pub next_action : ℕ → ℕ → ℕ → ℕ → ℕ × Action
next_action consecutive_failures failure_threshold hard_reset_after_rounds rounds =
    if failure_threshold == 0
      || hard_reset_after_rounds == 0
      || ltb consecutive_failures failure_threshold
    then (rounds, no_action)
    else (let rounds' = (rounds + 1) % 2 ^ 32 in
        if rounds' == 1
        then (rounds', reinitialize)
        else if leb rounds' hard_reset_after_rounds
        then (rounds', functional_reset)
        else (0, hard_reset))

-- modem_recovery_policy_next
unfoldable pub policy_next : ℕ → ℕ → ℕ → Option ℕ → Option ℕ × Action
policy_next failures threshold after none = (none, no_action)
policy_next failures threshold after (some rounds) =
    let (rounds', action) = next_action failures threshold after rounds in (some rounds', action)

-- The actions of `n` rounds of failure, from a counter on.
unfoldable pub rounds_of : ℕ → ℕ → ℕ → ℕ → ℕ → ℕ × List Action
rounds_of failures threshold after zero rounds = (rounds, [])
rounds_of failures threshold after (suc n) rounds =
    let (rounds', action) = next_action failures threshold after rounds in
    let (rounds'', actions) = rounds_of failures threshold after n rounds' in
    (rounds'', action ∷ actions)
