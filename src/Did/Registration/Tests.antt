-- ===== src/Did/Registration/Tests.antt =====
-- A wizard that registers a university.
use academic_verification.Prelude.{true, none, some, List, [], ◌∷◌}
use academic_verification.Store.Did
use academic_verification.Transactions.Submit.{success_in}
use academic_verification.Transactions.Extrinsic.{Submission}
use academic_verification.Did.Create.{Answer}
use academic_verification.Did.Registration.{
  InstitutionForm, RegistrationState, UploadedFile, initial,
}
use academic_verification.Did.Registration.Session.{
  IsWell, Action, upload, next, previous, remove, submit, perform_all, perform_all-IsWell,
}

abbrev university : InstitutionForm
university = record {
  name = "Uni";
  type = "University";
  description = none;
  country = "GH";
  website = "https://uni.example";
  contact_name = "Ama";
  contact_email = "ama@uni.example";
  contact_phone = "12345";
  address = "1 High Street";
  terms_accepted = true;
}

abbrev call : Submission → Answer
call tx = record { updates = []; result = some (success_in "0xaa" "0xb1") }

abbrev review : RegistrationState
review = record (initial university Did.initial) { step = 4 }

abbrev bare : RegistrationState
bare = record (initial (record university { website = ""; address = "" }) Did.initial) { step = 4 }

abbrev letter : UploadedFile
letter = record { name = "letter.pdf"; type = "application/pdf"; size = 12 }

abbrev actions : List Action
actions =
    next (λ fields f. true)
    ∷ (upload (λ f. "ab") (letter ∷ [])
        ∷ (remove 0
            ∷ (next (λ fields f. true)
                ∷ (previous
                    ∷ (next (λ fields f. true)
                        ∷ (next (λ fields f. true) ∷ (submit (some call) (some "5Uni") ∷ [])))))))

perform_all-IsWell_example : IsWell (perform_all actions (initial university Did.initial))
perform_all-IsWell_example = perform_all-IsWell university Did.initial actions
