-- ===== src/Shell/Identity.antt =====
-- The state of the identity as academic-verification-frontend/src/components/did/DIDStatus.tsx shows it,
-- the guards of academic-verification-frontend/src/pages/IssueCredential.tsx and
-- academic-verification-frontend/src/pages/Dashboard.tsx, and
-- academic-verification-frontend/src/components/did/CreateDIDModal.tsx.
use academic_verification.Prelude.{
  ℕ, String, Bool, true, false, not, Option, List, [], ◌∷◌, if◌then◌else◌,
}
use academic_verification.Constants.{DidStatus, no_did, active, inactive, pending}
use academic_verification.Store.Did.{DidState, PublicKey, set_did}
use academic_verification.Transactions.Extrinsic.{Submission}
use academic_verification.Did.Create.{CreateState, Answer, on_submit}

pub data Variant : Type 0 where
  success warning outline : Variant

pub record StatusConfig : Type 0 where
  pub text : String
  pub variant : Variant
  pub description : String

unfoldable pub get_status_config : DidStatus → StatusConfig
get_status_config active = record {
  text = "Active";
  variant = success;
  description = "Your identity is active";
}
get_status_config inactive = record {
  text = "Inactive";
  variant = warning;
  description = "Your identity is deactivated";
}
get_status_config pending = record {
  text = "Pending";
  variant = warning;
  description = "Verification pending";
}
get_status_config no_did = record {
  text = "No DID";
  variant = outline;
  description = "Create your DID to get started";
}

-- What `DIDStatus` shows.
pub record IdentityView : Type 0 where
  pub heading : String
  pub config : StatusConfig
  pub institution_badge : Bool

unfoldable pub did_status : DidState → IdentityView
unfolding get_status_config
did_status d = record {
  heading = if d.has_did then "Identity" else "No Identity";
  config = get_status_config d.status;
  institution_badge = d.is_institution;
}

-- What `IssueCredential` shows: one of two prompts with the addresses of its buttons, or the form.
pub data IssueView : Type 0 where
  did_required : (create : String) → IssueView
  institution_required : (register back : String) → IssueView
  issue_form : (on_success on_cancel : String) → IssueView

unfoldable pub issue_credential_page : DidState → IssueView
issue_credential_page d =
    if not d.has_did
    then did_required "/dashboard"
    else if not d.is_institution
    then institution_required "/institution" "/dashboard"
    else issue_form "/institution" "/institution"

-- What `Dashboard` shows: one of two prompts, or the statistics with the subtitle.
pub data DashboardView : Type 0 where
  connect_wallet create_did_prompt : DashboardView
  full_dashboard : (subtitle : String) → DashboardView

unfoldable pub dashboard_page : (is_connected : Bool) → DidState → DashboardView
dashboard_page is_connected d =
    if not is_connected
    then connect_wallet
    else if not d.has_did
    then create_did_prompt
    else full_dashboard (
        if d.is_institution
        then "Manage your institution and issue credentials"
        else "Manage your credentials and academic identity")

-- The key that `handleSuccess` of `CreateDIDModal` writes; `now` is the clock.
abbrev pub placeholder_key : ℕ → PublicKey
placeholder_key now = record {
  id = "1";
  key_type = "Ed25519";
  public_key = "0x...";
  added_at = now;
}

-- The store, and whether the dialog is open.
pub record ModalState : Type 0 where
  pub did : DidState
  pub is_open : Bool

-- `handleSuccess`
unfoldable pub handle_success : ℕ → String → ModalState → ModalState
unfolding set_did
handle_success now did_address m = record {
  did = set_did now did_address (placeholder_key now ∷ []) m.did;
  is_open = false;
}

-- The calls of `onSuccess`.
abbrev pub on_created : ℕ → List String → ModalState → ModalState
on_created now [] m = m
on_created now (a ∷ addresses) m = on_created now addresses (handle_success now a m)

-- The form in the open dialog, whose `onSuccess` is `handleSuccess`; `now` and `later` are the clock in
-- the form and in the dialog, and the form has created nothing before.
unfoldable pub submit_in_dialog :
    (now later : ℕ)
    → Option (Submission → Answer)
    → Option String
    → CreateState
    → CreateState × ModalState
unfolding on_submit handle_success
submit_in_dialog now later connection account s =
    let t = on_submit now connection account s in
    (t, on_created later t.created (record { did = t.did; is_open = true }))
