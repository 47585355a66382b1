-- ===== src/Transactions/Submit/Tests.antt =====
-- Runs of `submitTransaction`.
use academic_verification.Prelude.{true, false, none, some, List, [], ◌∷◌, ◌≡◌, refl, ok}
use academic_verification.Transactions.Submit.{
  SubmittableResult, Registry, Event, returned, result, failure, success_in, submit_transaction,
}
use academic_verification.Transactions.Submit.Outcome.{
  Split, submit_transaction-outcome, submit_transaction-success,
}
use academic_verification.Transactions.Submit.Updates.{IsCoherent, submit_transaction-IsCoherent}

abbrev registry : Registry
registry m = ok (record { section = "credential"; name = m; docs = "Not" ∷ ("found." ∷ []) })

abbrev quiet : SubmittableResult
quiet = record {
  is_ready = true;
  is_in_block = false;
  is_finalized = false;
  as_in_block = "";
  as_finalized = "";
  dispatch_error = none;
}

abbrev final : SubmittableResult
final = record quiet { is_ready = false; is_finalized = true; as_finalized = "0xb2" }

abbrev broken : SubmittableResult
broken = record final {
  dispatch_error =
      some (record { is_module = true; as_module = "CredentialNotFound"; text = "Module" });
}

broken_message :
    (submit_transaction registry "0xaa" none (result broken ∷ [])).outcome
    ≡ some (failure "credential.CredentialNotFound: Not found.")
unfolding submit_transaction
broken_message = refl

abbrev happy : List Event
happy = result quiet ∷ (result final ∷ [])

submit_transaction-outcome_example :
    (submit_transaction registry "0xaa" none (returned ∷ happy)).outcome
    ≡ some (success_in "0xaa" "0xb2")
submit_transaction-outcome_example =
    submit_transaction-outcome registry "0xaa" none (returned ∷ happy)

happy_succeeds :
    (submit_transaction registry "0xaa" none happy).outcome ≡ some (success_in "0xaa" "0xb2")
unfolding submit_transaction
happy_succeeds = refl

submit_transaction-success_example : Split registry "0xaa" happy (success_in "0xaa" "0xb2")
submit_transaction-success_example =
    submit_transaction-success registry "0xaa" happy (success_in "0xaa" "0xb2") happy_succeeds refl

submit_transaction-IsCoherent_example :
    IsCoherent (submit_transaction registry "0xaa" none (result broken ∷ happy))
submit_transaction-IsCoherent_example =
    submit_transaction-IsCoherent registry "0xaa" none (result broken ∷ happy)
