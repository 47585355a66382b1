-- ===== src/Credential/Issue/Tests.antt =====
-- Runs of the wizard.
use academic_verification.Prelude.{
  ◌+◌, ◌-◌, ◌*◌, ◌≤◌, ◌<◌, String, true, none, some, List, [], ◌∷◌, ok, ◌≡◌, refl, eq_iff,
}
use academic_verification.Queries.Real.Tests.{api}
use academic_verification.Credential.Issue
use academic_verification.Credential.Issue.{
  Details, IssueForm, IssueCredential, IssueState, Node, ℤ, pos, initial, search_recipient,
  handle_file_upload, hash_generated, next_step, on_submit, expires_at_block, expiry_of,
}
use academic_verification.Credential.Issue.Expiry.{expires_at_block_bounds}
use academic_verification.Credential.Issue.Guarded.{IsGuarded}
use academic_verification.Credential.Issue.Session.{
  Action, edit, search, next, hashed, submit, perform, Reach, start, go, Reach-IsGuarded,
}

abbrev details : Details
details = record {
  degree_name = "Computer Science";
  field_of_study = "Engineering";
  major = none;
  minor = none;
  graduation_date = "2024-06-01";
  gpa = none;
  honors = none;
  reference_number = none;
  notes = none;
}

abbrev form : IssueForm
form = record {
  recipient_did = "5StudentAddress";
  credential_type = "Bachelor's Degree";
  custom_type = none;
  details = details;
  issue_date = "2024-06-15";
  expiration_date = none;
}

abbrev to_json : Details → String
to_json d = d.degree_name

abbrev node : Node
node = record {
  block_number = ok 100;
  now = 1700000000000;
  submit = λ account tx. some (record {
    success = true;
    block_hash = some "0xb1";
    transaction_hash = some "0xt1";
    error = none;
  });
}

-- The first step, after a search; the document was uploaded before.
abbrev searched : IssueState
searched = record (initial form) {
  uploaded_document =
      some (record { name = "degree.pdf"; file_type = "application/pdf"; size = 1024 });
  document_hash = "0xabc";
  recipient_info = some Issue.active;
}

abbrev review : IssueState
review = record searched { step = 5 }

abbrev other_form : IssueForm
other_form = record form { recipient_did = "5SomebodyElse" }

in_two_days : expires_at_block 100 1000 86401001 ≡ pos 28900
unfolding expires_at_block
in_two_days = refl

no_expiry : expiry_of (ok 100) 1700000000000 none ≡ ok none
unfolding expiry_of
no_expiry = refl

expires_at_block_bounds_example :
    (1000 ≤ 86401001
      → (100 ≤ 28900)
        × (86401001 ≤ 1000 + (28900 - 100) * 6000)
        × (1000 + (28900 - 100) * 6000 < 86401001 + 86400000))
    × (86401001 < 1000 → 28900 ≤ 100)
expires_at_block_bounds_example = expires_at_block_bounds 100 1000 86401001 28900 in_two_days

abbrev ways : List Action
ways =
    edit other_form
    ∷ (search (some api)
        ∷ (next (λ fields f. true)
            ∷ (hashed (ok "0xabc") ∷ (submit (some node) (some "5Uni") ∷ []))))

-- The state after some operations.
abbrev after : List Action → IssueState
after [] = initial form
after (a ∷ before) = perform to_json a (after before)

reached : Reach to_json (after ways)
reached = go (edit other_form) _ tt (
    go (search (some api)) _ tt (
      go (next (λ fields f. true)) _ tt (
        go (hashed (ok "0xabc")) _ (λ e. let never = (eq_iff "0xabc" "").1 e in cc)
          (go (submit (some node) (some "5Uni")) _ tt (start form)))))

Reach-IsGuarded_example : IsGuarded (after ways)
Reach-IsGuarded_example = Reach-IsGuarded to_json (after ways) reached
