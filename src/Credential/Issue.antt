-- ===== src/Credential/Issue.antt =====
-- academic-verification-frontend/src/components/credentials/IssueCredentialForm.tsx and
-- `issueCredential` of academic-verification-frontend/src/lib/blockchain/transactions.ts. The wizard's
-- state is a record with the values of the form in it, a toast is modelled by its kind and its title,
-- and the transactions that were sent are kept as a list. Parameters: the validation of fields by
-- the form library, `JSON.stringify` on the metadata, the parsed dates as milliseconds, the hash of
-- a document, and the answers of the chain; `none` for the chain stands for `!queries || !isReady`.
-- The toasts about the progress of a transaction are left out. The hash of a document that was
-- chosen may come after later steps.
pub mod Laws
pub mod Expiry
pub mod Drift
pub mod Guarded
pub mod Sending
pub mod Session
mod Tests
use Prim.Native.String.{count}
use academic_verification.Prelude.{
  ℕ, suc, ◌+◌, ◌-◌, ◌*◌, ◌/◌, min, max, ltb, leb, eqb, String, Bool, true, false, not, ◌==◌, ◌||◌,
  Option, none, some, List, [], ◌∷◌, ◌++◌, Settled, ok, err, ◌>>=◌, str_or, if◌then◌else◌,
}
use academic_verification.Chain.{Api, DidDocument}
use academic_verification.Integration.Types.{blockchain_type}
use academic_verification.Transactions.Submit.{TransactionResult}
use academic_verification.Queries.Real
use academic_verification.Provider.Wallet.{Toast, success, warning, error}

-- A JavaScript number that is whole.
pub data ℤ : Type 0 where
  pos : ℕ → ℤ
  negsuc : ℕ → ℤ

unfoldable pub subtract : ℕ → ℕ → ℤ
subtract m n = if leb n m then pos (m - n) else negsuc (n - m - 1)

-- The fields that go into the metadata.
pub record Details : Type 0 where
  pub degree_name : String
  pub field_of_study : String
  pub major : Option String
  pub minor : Option String
  pub graduation_date : String
  pub gpa : Option String
  pub honors : Option String
  pub reference_number : Option String
  pub notes : Option String

-- `IssueCredentialFormData`; the expiration date in milliseconds.
pub record IssueForm : Type 0 where
  pub recipient_did : String
  pub credential_type : String
  pub custom_type : Option String
  pub details : Details
  pub issue_date : String
  pub expiration_date : Option ℕ

pub data Field : Type 0 where
  credential_type degree_name field_of_study custom_type graduation_date issue_date : Field

pub data RecipientStatus : Type 0 where
  active inactive not_found : RecipientStatus

pub record Document : Type 0 where
  pub name : String
  pub file_type : String
  pub size : ℕ

-- What `issueCredential` passes to the extrinsic.
pub record IssueCredential : Type 0 where
  pub holder : String
  pub credential_hash : String
  pub credential_type : String
  pub metadata : String
  pub expires_at : Option ℤ

pub record IssueState : Type 0 where
  pub form : IssueForm
  pub step : ℕ
  pub uploaded_document : Option Document
  pub document_hash : String
  pub recipient_info : Option RecipientStatus
  pub is_searching : Bool
  pub is_submitting : Bool
  pub sent : List IssueCredential
  pub issued : List String
  pub toasts : List Toast

abbrev pub toast : Toast → IssueState → IssueState
toast t s = record s { toasts = s.toasts ++ t ∷ [] }

unfoldable pub initial : IssueForm → IssueState
initial form = record {
  form = form;
  step = 1;
  uploaded_document = none;
  document_hash = "";
  recipient_info = none;
  is_searching = false;
  is_submitting = false;
  sent = [];
  issued = [];
  toasts = [];
}

abbrev pub inform : RecipientStatus → Toast → IssueState → IssueState
inform r t s = toast t (record s { recipient_info = some r })

-- What `searchRecipient` makes of the document.
unfoldable pub show_recipient : Option DidDocument → IssueState → IssueState
show_recipient none s = inform not_found (error "DID not found on blockchain") s
show_recipient (some d) s =
    if not d.active
    then inform inactive (warning "This DID is inactive") s
    else inform active (success "Recipient found!") s

unfoldable pub search_recipient : Option Api → IssueState → IssueState
unfolding show_recipient
search_recipient chain s =
    if (s.form.recipient_did == "") || ltb (count s.form.recipient_did) 10
    then toast (error "Please enter a valid DID address") s
    else elim chain [
      | none ↦ toast (error "Blockchain not connected") s
      | some api ↦
          record (show_recipient (Real.get_did api s.form.recipient_did)
            (record s { is_searching = true })) { is_searching = false }
    ]

-- `handleFileUpload` until the hash is awaited.
unfoldable pub handle_file_upload : Option Document → IssueState → IssueState
handle_file_upload none s = s
handle_file_upload (some d) s =
    if not (d.file_type == "application/pdf")
    then toast (error "Only PDF files are allowed") s
    else if ltb 10485760 d.size
    then toast (error "File size must be less than 10MB") s
    else record s { uploaded_document = some d }

-- The rest of `handleFileUpload`.
unfoldable pub hash_generated : Settled String → IssueState → IssueState
hash_generated (ok hash) s =
    toast (success "Document uploaded successfully") (record s { document_hash = hash })
hash_generated (err m) s = record (toast (error "Failed to generate document hash") s) {
  uploaded_document = none;
}

-- The fields that a step validates, and the guards of the first and the fourth step.
abbrev pub fields_to_validate : ℕ → String → List Field
fields_to_validate step t =
    if eqb step 2
    then (if t == "Other"
        then credential_type ∷ (degree_name ∷ (field_of_study ∷ (custom_type ∷ [])))
        else credential_type ∷ (degree_name ∷ (field_of_study ∷ [])))
    else if eqb step 3
    then graduation_date ∷ (issue_date ∷ [])
    else []

abbrev pub is_active : Option RecipientStatus → Bool
is_active (some active) = true
is_active r = false

abbrev pub has_document : IssueState → Bool
has_document s = elim s.uploaded_document [ none ↦ false | some d ↦ not (s.document_hash == "") ]

abbrev pub advance : Bool → IssueState → IssueState
advance valid s = if valid then record s { step = min (suc s.step) 5 } else s

-- `nextStep`; `trigger` validates fields of the form, and nothing is validated for no fields.
unfoldable pub next_step : (List Field → IssueForm → Bool) → IssueState → IssueState
next_step trigger s =
    if eqb s.step 1
    then (if is_active s.recipient_info
        then advance true s
        else toast (error "Please search and verify the recipient first") s)
    else if eqb s.step 4
    then (if has_document s then advance true s else toast (error "Please upload a document") s)
    else elim (fields_to_validate s.step s.form.credential_type) [
      | [] ↦ advance true s
      | field ∷ more ↦ advance (trigger (field ∷ more) s.form) s
    ]

-- `prevStep`
unfoldable pub prev_step : IssueState → IssueState
prev_step s = record s { step = max (s.step - 1) 1 }

-- `Math.ceil((expirationDate - currentDate) / day) * 14400` added to the current block.
unfoldable pub expires_at_block : (current_block now expiration_date : ℕ) → ℤ
unfolding subtract
expires_at_block current_block now expiration_date =
    if leb now expiration_date
    then pos (current_block + (expiration_date - now + 86399999) / 86400000 * 14400)
    else subtract current_block ((now - expiration_date) / 86400000 * 14400)

-- `expiresAtBlock`, with the query of the current block
unfoldable pub expiry_of : Settled ℕ → ℕ → Option ℕ → Settled (Option ℤ)
unfolding expires_at_block
expiry_of block_number now none = ok none
expiry_of block_number now (some date) =
    block_number >>= λ current. ok (some (expires_at_block current now date))

-- `issueCredential`, up to `submitTransaction`
unfoldable pub issue_credential :
    (holder credential_hash type metadata : String) → Option ℤ → IssueCredential
unfolding blockchain_type
issue_credential holder credential_hash type metadata expires_at = record {
  holder = holder;
  credential_hash = credential_hash;
  credential_type = blockchain_type type;
  metadata = metadata;
  expires_at = expires_at;
}

-- What the page does with a result, and its `catch` and `finally`.
unfoldable pub fail : String → IssueState → IssueState
fail m s = record (toast (error (str_or (some m) "Failed to issue credential")) s) {
  is_submitting = false;
}

unfoldable pub use_result : TransactionResult → IssueState → IssueState
unfolding fail
use_result r s =
    if r.success
    then record (toast (success "Credential issued successfully!") s) {
      issued = s.issued ++ str_or r.transaction_hash "unknown" ∷ [];
      is_submitting = false;
    }
    else fail (str_or r.error "Transaction failed") s

-- What the chain and the wallet answer while the form is submitted; `none` for a transaction's
-- result is a promise that stays pending.
pub record Node : Type 0 where
  pub block_number : Settled ℕ
  pub now : ℕ
  pub submit : String → IssueCredential → Option TransactionResult

unfoldable pub send : Node → String → Settled IssueCredential → IssueState → IssueState
unfolding use_result fail
send node account (err m) s = fail m s
send node account (ok tx) s =
    let s' = record s { sent = s.sent ++ tx ∷ [] } in
    elim (node.submit account tx) [ none ↦ s' | some r ↦ use_result r s' ]

-- The transaction that `onSubmit` prepares.
unfoldable pub prepare : (to_json : Details → String) → Node → IssueState → Settled IssueCredential
unfolding issue_credential expiry_of
prepare to_json n s = expiry_of n.block_number n.now s.form.expiration_date >>= λ expires. ok (
    issue_credential s.form.recipient_did s.document_hash s.form.credential_type
      (to_json s.form.details) expires)

-- The `try` block of `onSubmit`.
unfoldable pub submit_form :
    (to_json : Details → String) → Option Node → Option String → IssueState → IssueState
unfolding send prepare fail
submit_form to_json none account s = fail "Blockchain not connected" s
submit_form to_json (some n) none s = fail "Blockchain not connected" s
submit_form to_json (some n) (some account) s = send n account (prepare to_json n s) s

-- `onSubmit`, which the form library calls with the values of a form that is valid.
unfoldable pub on_submit :
    (to_json : Details → String) → Option Node → Option String → IssueState → IssueState
unfolding submit_form
on_submit to_json node account s =
    if not (eqb s.step 5)
    then s
    else submit_form to_json node account (record s { is_submitting = true })
