-- ===== src/Did/Registration.antt =====
-- academic-verification-frontend/src/components/did/InstitutionRegistration.tsx. The wizard's state is a
-- record, with the DID store in it; a toast is modelled by its kind and its title. Parameters: the
-- form library's `trigger`, the random digits of the mock hashes, and what the transaction's promise
-- comes to. The hashes of an upload are appended at once, in the order of the files.
pub mod Laws
pub mod Documents
pub mod Session
mod Tests
use Prim.Native.String
use academic_verification.Prelude.{
  ℕ, zero, suc, ◌+◌, ◌-◌, max, min, eqb, String, Bool, true, false, not, ◌==◌, ◌&&◌, Option, none,
  some, List, [], ◌∷◌, ◌++◌, map, str_or, filter, length, if◌then◌else◌,
}
use academic_verification.Store.Did.{DidState, set_institution}
use academic_verification.Transactions.Submit.{TransactionResult, TransactionStatus}
use academic_verification.Transactions.Extrinsic.{Submission}
use academic_verification.Transactions.Calls.{register_institution}
use academic_verification.Provider.Wallet.{Toast, success, error}
use academic_verification.Did.Create.{Answer}

-- A `File`: its type, and what else the page shows of it.
pub record UploadedFile : Type 0 where
  pub name : String
  pub type : String
  pub size : ℕ

-- `institutionSchema`, without the conditions, which the form library tests.
pub record InstitutionForm : Type 0 where
  pub name : String
  pub type : String
  pub description : Option String
  pub country : String
  pub website : String
  pub contact_name : String
  pub contact_email : String
  pub contact_phone : String
  pub address : String
  pub terms_accepted : Bool

pub data FormField : Type 0 where
  name type description country website : FormField
  contact_name contact_email contact_phone address : FormField

pub record RegistrationState : Type 0 where
  pub form : InstitutionForm
  pub step : ℕ
  pub uploaded_docs : List UploadedFile
  pub doc_hashes : List String
  pub is_submitting : Bool
  pub tx_status : String
  pub did : DidState
  pub sent : List Submission
  pub registered : ℕ
  pub toasts : List Toast

abbrev pub initial : InstitutionForm → DidState → RegistrationState
initial form did = record {
  form = form;
  step = 1;
  uploaded_docs = [];
  doc_hashes = [];
  is_submitting = false;
  tx_status = "";
  did = did;
  sent = [];
  registered = 0;
  toasts = [];
}

abbrev pub toast : Toast → RegistrationState → RegistrationState
toast t s = record s { toasts = s.toasts ++ t ∷ [] }

unfoldable pub is_pdf : UploadedFile → Bool
is_pdf f = f.type == "application/pdf"

-- `generateFileHash`, with the random digits as an argument; the file is not read.
unfoldable pub generate_file_hash : String → UploadedFile → String
generate_file_hash digits f = String.◌∷◌ "0" (String.◌∷◌ "x" digits)

-- `handleFileUpload`
unfoldable pub handle_file_upload :
    (UploadedFile → String) → List UploadedFile → RegistrationState → RegistrationState
unfolding is_pdf generate_file_hash
handle_file_upload digits [] s = s
handle_file_upload digits (f ∷ fs) s =
    let valid = filter is_pdf (f ∷ fs) in
    if eqb (length valid) (length (f ∷ fs))
    then toast (success "document(s) uploaded") (record s {
      uploaded_docs = s.uploaded_docs ++ valid;
      doc_hashes = s.doc_hashes ++ map (λ g. generate_file_hash (digits g) g) valid;
    })
    else toast (error "Only PDF files are allowed") s

-- `filter((_, i) => i !== index)`
unfoldable pub without_index {ℓ} : {A : Type ℓ} → ℕ → List A → List A
without_index n [] = []
without_index zero (x ∷ xs) = xs
without_index (suc n) (x ∷ xs) = x ∷ without_index n xs

unfoldable pub remove_document : ℕ → RegistrationState → RegistrationState
unfolding without_index
remove_document index s = toast (success "Document removed") (record s {
  uploaded_docs = without_index index s.uploaded_docs;
  doc_hashes = without_index index s.doc_hashes;
})

-- `fieldsToValidate`
unfoldable pub fields_to_validate : ℕ → List FormField
fields_to_validate step =
    if eqb step 1
    then name ∷ type ∷ description ∷ country ∷ website ∷ []
    else if eqb step 3
    then contact_name ∷ contact_email ∷ contact_phone ∷ address ∷ []
    else []

unfoldable pub next_step :
    (List FormField → InstitutionForm → Bool) → RegistrationState → RegistrationState
unfolding fields_to_validate
next_step trigger s =
    if trigger (fields_to_validate s.step) s.form then record s { step = min (s.step + 1) 4 } else s

unfoldable pub prev_step : RegistrationState → RegistrationState
prev_step s = record s { step = max (s.step - 1) 1 }

unfoldable pub report_status : List TransactionStatus → RegistrationState → RegistrationState
report_status [] s = s
report_status (u ∷ us) s = report_status us (record s { tx_status = u.message })

-- What follows the promise, with the `finally`; one that stays pending is not followed.
unfoldable pub answered : String → Option TransactionResult → RegistrationState → RegistrationState
unfolding set_institution
answered institution none s = s
answered institution (some r) s =
    let closed = record s { is_submitting = false; tx_status = "" } in
    if r.success
    then toast (success "Institution registration submitted!")
        (record closed { did = set_institution institution s.did; registered = s.registered + 1 })
    else toast (error "Failed to register institution") closed

-- The transaction of `onSubmit`.
unfoldable pub send : (Submission → Answer) → String → RegistrationState → RegistrationState
unfolding answered report_status register_institution
send call account s =
    let tx = register_institution account s.form.name in
    answered s.form.name (call tx).result (
      report_status (call tx).updates (record s { is_submitting = true; sent = s.sent ++ tx ∷ [] }))

-- `onSubmit`; `none` for the submission stands for `!transactions || !isReady`.
unfoldable pub on_submit :
    Option (Submission → Answer) → Option String → RegistrationState → RegistrationState
unfolding send
on_submit none account s =
    if eqb s.step 4 then toast (error "Blockchain connection not ready") s else s
on_submit (some call) none s =
    if eqb s.step 4 then toast (error "Please connect your wallet") s else s
on_submit (some call) (some account) s = if eqb s.step 4 then send call account s else s
