-- ===== src/Transactions/Forms/Tests.antt =====
-- The two forms on a network that finalizes what it is sent.
use academic_verification.Prelude.{
  String, true, false, Option, none, some, [], ◌∷◌, ok, ◌≡◌, ◌≢◌, refl, ap, arith, All,
}
use academic_verification.Store.Did
use academic_verification.Store.Did.{DidState}
use academic_verification.Did.Create.Laws
use academic_verification.Transactions.Submit.{
  SubmittableResult, Registry, returned, result, submit_transaction,
}
use academic_verification.Transactions.Extrinsic.{ed25519}
use academic_verification.Transactions.Calls.{Network, create_did, run_submission}
use academic_verification.Credential.Issue.{
  IssueForm, Details, IssueState, initial, ℤ, expiry_of, on_submit,
}
use academic_verification.Did.HexBytes.Laws.{IsByte, written}
use academic_verification.Did.Create
use academic_verification.Did.Create.{CreateState, GeneratedKeys, backup}
use academic_verification.Transactions.Forms.{
  IsFinalized, node_of, issuance_of, answer_of, on_submit-IsFinalized, on_submit-IsRegistered,
}

abbrev registry : Registry
registry m = ok (record { section = "credential"; name = m; docs = [] })

abbrev final : SubmittableResult
final = record {
  is_ready = false;
  is_in_block = false;
  is_finalized = true;
  as_in_block = "";
  as_finalized = "0xb2";
  dispatch_error = none;
}

abbrev network : Network
network = record {
  find_meta_error = registry;
  hash_of = λ x. "0xaa";
  signer_error = λ account. none;
  answers = λ s. returned ∷ (result final ∷ []);
}

abbrev form : IssueForm
form = record {
  recipient_did = "5Stu";
  credential_type = "Certificate";
  custom_type = none;
  details = record {
    degree_name = "Physics";
    field_of_study = "Science";
    major = none;
    minor = none;
    graduation_date = "2024-06-01";
    gpa = none;
    honors = none;
    reference_number = none;
    notes = none;
  };
  issue_date = "2024-06-15";
  expiration_date = some 1800000000000;
}

abbrev to_json : Details → String
to_json d = d.degree_name

abbrev review : IssueState
review = record (initial form) { step = 5; document_hash = "0xabc" }

issued_grows :
    (on_submit to_json (some (node_of network (ok 100) 1700000000000)) (some "5Uni") review).issued
    ≢ review.issued
unfolding initial on_submit run_submission submit_transaction
issued_grows e = cc

on_submit-IsFinalized_example :
    (e : Option ℤ) × (expiry_of (ok 100) 1700000000000 form.expiration_date ≡ ok e)
    × IsFinalized network (issuance_of to_json "5Uni" review e)
unfolding initial
on_submit-IsFinalized_example =
    on_submit-IsFinalized to_json network (ok 100) 1700000000000 "5Uni" review issued_grows

abbrev keys : GeneratedKeys
keys = record { public_key = written (18 ∷ (255 ∷ [])); mnemonic = "a b c"; address = "5New" }

abbrev page : CreateState
page = record {
  form = record { key_type = ed25519; backup_confirmed = true };
  step = backup;
  generated_keys = some keys;
  show_mnemonic = false;
  is_submitting = false;
  transaction_status = "";
  did = Did.initial;
  sent = [];
  created = [];
  toasts = [];
}

bytes-IsByte : All IsByte (18 ∷ (255 ∷ []))
bytes-IsByte = (omega arith, (omega arith, tt))

key_registered :
    Laws.succeeded (answer_of network (create_did "5Acc" (18 ∷ (255 ∷ [])) ed25519)).result ≡ true
unfolding run_submission submit_transaction
key_registered = refl

did_changes : (Create.on_submit 7 (some (answer_of network)) (some "5Acc") page).did ≢ page.did
did_changes e =
    let (_, a) =
      Laws.on_submit-IsAnswered 7 (answer_of network) "5Acc" page keys 18 (255 ∷ []) bytes-IsByte
        refl refl refl in
    let owner = a.owner key_registered in let nobody = ap (λ (d : DidState). d.did_address) e in cc

on_submit-IsRegistered_example : IsFinalized network (create_did "5Acc" (18 ∷ (255 ∷ [])) ed25519)
on_submit-IsRegistered_example =
    on_submit-IsRegistered 7 network "5Acc" page keys 18 (255 ∷ []) bytes-IsByte refl refl refl
      did_changes
