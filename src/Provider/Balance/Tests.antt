-- ===== src/Provider/Balance/Tests.antt =====
-- Two accounts whose balances are subscribed to.
use academic_verification.Prelude.{◌+◌, String, some, ◌≡◌, ◌≢◌, ◌⊎◌, refl, eq_iff, decimal}
use academic_verification.Provider.Balance.{
  BalanceState, initial, switched, subscribed, updated, run_effect, step,
}
use academic_verification.Provider.Balance.Laws.{Reach, start, go, Reach-updated, AllAnswered}

abbrev in_units : String → String
in_units s = s

abbrev first : BalanceState
first = step in_units (subscribed 0) (step in_units (switched (some "5Stu")) initial)

first_answered : AllAnswered first.runs
unfolding step run_effect
first_answered = (refl, tt)

abbrev second : BalanceState
second = step in_units (subscribed 1) (step in_units (switched (some "5Uni")) first)

second-Reach : Reach in_units second
second-Reach = go (subscribed 1) _ tt (
    go (switched (some "5Uni")) _ first_answered
      (go (subscribed 0) _ tt (go (switched (some "5Stu")) _ tt start)))

Reach-updated_example :
    let t = step in_units (updated 1 7 2 0) second in
    (t ≡ second)
    ⊎ ((owner : String) × (t.account ≡ some owner)
        × (t.stored ≡ some (owner, in_units (decimal (7 + 2)))))
Reach-updated_example = Reach-updated in_units second 1 7 2 0 second-Reach

abbrev student : String
student = "5Stu"

abbrev university : String
university = "5Uni"

student_not_empty : student ≢ ""
student_not_empty e = let never = (eq_iff "5Stu" "").1 e in cc

university_not_empty : university ≢ ""
university_not_empty e = let never = (eq_iff "5Uni" "").1 e in cc
