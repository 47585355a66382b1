-- ===== src/Integration/Waiting/Tests.antt =====
-- Runs in which the transaction is met after two polls, and in which it is not.
use academic_verification.Prelude.{true, some, List, [], ◌∷◌, ok, ◌≡◌, refl, All}
use academic_verification.Integration.Waiting.{
  Event, timed_out, polled, contains, wait_for_in_block,
}
use academic_verification.Integration.Waiting.Laws.{
  first_decision, IsVain, wait_for_in_block-outcome,
}

abbrev met : List Event
met = polled (ok []) ∷ (polled (ok ("0xb1" ∷ [])) ∷ (timed_out ∷ []))

wait_for_in_block-outcome_example :
    (wait_for_in_block "0xb1" met).outcome ≡ first_decision "0xb1" met
wait_for_in_block-outcome_example = wait_for_in_block-outcome "0xb1" met

met_first : first_decision "0xb1" met ≡ some (ok true)
unfolding contains
met_first = refl

vain : All (IsVain "0xb1") (polled (ok []) ∷ [])
unfolding contains
vain = (refl, tt)
