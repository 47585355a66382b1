-- ===== src/Credential/Verify.antt =====
-- academic-verification-frontend/src/components/credentials/VerifyCredential.tsx. The page's state is
-- a record, a toast is modelled by its kind and its title. The chain is an argument: `none` stands
-- for `!queries || !isReady`, which `useBlockchain` makes the same. `JSON.parse`, the `URL` of the
-- browser and `hexToString` are parameters. An operation runs to its end before the next one; the
-- camera and the QR codes are in Camera.
pub mod Camera
pub mod View
pub mod Drawn
pub mod Laws
pub mod Session
pub mod Tests
use Prim.Native.String.{count}
use academic_verification.Prelude.{
  ℕ, ltb, String, Bool, true, false, not, ◌==◌, ◌&&◌, ◌||◌, Option, none, some, List, [], ◌∷◌, ◌++◌,
  Settled, ok, err, ◌>>=◌, or_else, str_or, if◌then◌else◌, includes,
}
use academic_verification.Hex.{Value, str, truthy_value, decode_hex_string}
use academic_verification.Chain.{Api, InstitutionData}
use academic_verification.Integration.Format.{Credential}
use academic_verification.Queries.Real
use academic_verification.Credential.Status.{has_expired}
use academic_verification.Provider.Wallet.{Toast, success, error}

-- `VerificationMethod`
pub data Method : Type 0 where
  hash file qr : Method

-- `credential` of `VerificationResult`
pub record VerifiedCredential : Type 0 where
  pub id : String
  pub holder : String
  pub issuer : String
  pub issuer_name : Option String
  pub credential_hash : String
  pub credential_type : String
  pub degree_name : Value
  pub field_of_study : Option Value
  pub issued_at : ℕ
  pub expires_at : Option ℕ
  pub revoked : Bool
  pub metadata : Option String

pub record VerificationResult : Type 0 where
  pub found : Bool
  pub credential : Option VerifiedCredential

pub record VerifyState : Type 0 where
  pub method : Method
  pub hash_input : String
  pub is_verifying : Bool
  pub verification_result : Option VerificationResult
  pub uploaded_file : Option String
  pub show_qr_scanner : Bool
  pub is_camera_active : Bool
  pub toasts : List Toast

-- What the page reads of a parsed JSON text: `null`, or the properties of anything else.
pub data Metadata : Type 0 where
  null_metadata : Metadata
  fields : (degree_name field_of_study : Option Value) → Metadata

-- A parsed file: `null`, or its property `credentialHash`.
pub data FileData : Type 0 where
  null_data : FileData
  with_hash : Option String → FileData

pub record UploadedFile : Type 0 where
  pub name : String
  pub file_type : String
  pub text : Settled String

-- What the page shows of a result, by its title.
pub data VerificationStatus : Type 0 where
  credential_not_found credential_revoked credential_expired valid_credential : VerificationStatus

unfoldable pub initial : String → VerifyState
initial hash_input = record {
  method = hash;
  hash_input = hash_input;
  is_verifying = false;
  verification_result = none;
  uploaded_file = none;
  show_qr_scanner = false;
  is_camera_active = false;
  toasts = [];
}

abbrev pub toast : Toast → VerifyState → VerifyState
toast t s = record s { toasts = s.toasts ++ t ∷ [] }

abbrev pub not_found : VerificationResult
not_found = record { found = false; credential = none }

-- `metadata.degreeName || 'Academic Credential'`
abbrev pub degree_of : Option Value → Value
degree_of none = str "Academic Credential"
degree_of (some v) = if truthy_value v then v else str "Academic Credential"

-- The guards of `verifyByHash`, by the toast of the one that fails.
unfoldable pub admit : Option Api → String → Settled Api
admit chain h =
    if (h == "") || ltb (count h) 10
    then err "Please enter a valid credential hash"
    else elim chain [ none ↦ err "Blockchain not connected" | some api ↦ ok api ]

-- What `verifyByHash` does before it waits for the chain.
unfoldable pub begin : Settled Api → VerifyState → VerifyState
begin (err m) s = toast (error m) s
begin (ok api) s = record s { is_verifying = true; verification_result = none }

-- The result for a credential that was found; a property of `null` throws.
unfoldable pub present : Credential → Option String → Metadata → Settled VerificationResult
present c issuer_name null_metadata = err "Cannot read properties of null"
present c issuer_name (fields degree_name field_of_study) = ok (record {
  found = true;
  credential = some (record {
    id = c.id;
    holder = c.holder;
    issuer = c.issuer;
    issuer_name = issuer_name;
    credential_hash = c.credential_hash;
    credential_type = c.credential_type;
    degree_name = degree_of degree_name;
    field_of_study = field_of_study;
    issued_at = c.issued_at;
    expires_at = c.expires_at;
    revoked = c.revoked;
    metadata = c.metadata;
  });
})

-- The end of the `try` block, or its `catch`.
unfoldable pub show_result : Settled VerificationResult → VerifyState → VerifyState
show_result (ok r) s =
    toast (success "Credential verified on blockchain!") (record s { verification_result = some r })
show_result (err m) s =
    toast (error "Verification failed") (record s { verification_result = some not_found })

-- `getVerificationStatus`; a property of `undefined` throws.
unfoldable pub status_of : ℕ → Option VerifiedCredential → Settled VerificationStatus
unfolding has_expired
status_of now none = err "Cannot read properties of undefined"
status_of now (some c) = ok (
    if c.revoked
    then credential_revoked
    else if has_expired now c.expires_at
    then credential_expired
    else valid_credential)

unfoldable pub get_verification_status :
    ℕ → Option VerificationResult → Settled (Option VerificationStatus)
unfolding status_of
get_verification_status now none = ok none
get_verification_status now (some r) =
    if not r.found
    then ok (some credential_not_found)
    else status_of now r.credential >>= λ v. ok (some v)

-- `stopCamera`
unfoldable pub stop_camera : VerifyState → VerifyState
stop_camera s = record s { is_camera_active = false }

module _ (hex_to_string : String → Settled String) (parse_json : String → Settled Metadata) where
  -- `parseMetadata`
  unfoldable pub parse_metadata : Option String → Metadata
  parse_metadata none = fields none none
  parse_metadata (some m) =
      if m == ""
      then fields none none
      else or_else (parse_json (decode_hex_string hex_to_string (str m))) (fields none none)

  -- `institution?.name`, decoded if it is truthy
  unfoldable pub issuer_name_of : Option InstitutionData → Option String
  issuer_name_of none = none
  issuer_name_of (some i) =
      if truthy_value i.name then some (decode_hex_string hex_to_string i.name) else none

  -- The rest of the `try` block for the answer of the query, with `catch` and `finally`.
  unfoldable pub conclude : Api → Option Credential → VerifyState → VerifyState
  unfolding show_result present parse_metadata issuer_name_of
  conclude api none s =
      record (toast (error "Credential not found")
        (record s { verification_result = some not_found })) { is_verifying = false }
  conclude api (some c) s =
      let name = issuer_name_of (Real.get_institution api c.issuer) in
      record (show_result (present c name (parse_metadata c.metadata)) s) { is_verifying = false }

  -- What `verifyByHash` does from the query on.
  unfoldable pub finish : Settled Api → String → VerifyState → VerifyState
  unfolding conclude
  finish (err m) h s = s
  finish (ok api) h s = conclude api (Real.get_credential_by_hash api h) s

  unfoldable pub verify_by_hash : Option Api → String → VerifyState → VerifyState
  unfolding admit begin finish
  verify_by_hash chain h s = let checked = admit chain h in finish checked h (begin checked s)

  -- `handleSubmit`
  unfoldable pub handle_submit : Option Api → VerifyState → VerifyState
  unfolding verify_by_hash
  handle_submit chain s = verify_by_hash chain s.hash_input s

  unfoldable pub use_file_data : Option Api → Settled FileData → VerifyState → VerifyState
  unfolding verify_by_hash
  use_file_data chain (err m) s = toast (error "Failed to read file") s
  use_file_data chain (ok null_data) s = toast (error "Failed to read file") s
  use_file_data chain (ok (with_hash none)) s = toast (error "No credential hash found in file") s
  use_file_data chain (ok (with_hash (some h))) s =
      if h == ""
      then toast (error "No credential hash found in file") s
      else verify_by_hash chain h (record s { hash_input = h })

  -- `handleFileUpload`
  unfoldable pub handle_file_upload :
      (parse_file : String → Settled FileData)
      → Option Api
      → Option UploadedFile
      → VerifyState
      → VerifyState
  unfolding use_file_data
  handle_file_upload parse_file chain none s = s
  handle_file_upload parse_file chain (some f) s =
      if not (includes f.file_type "json") && not (includes f.file_type "pdf")
      then toast (error "Please upload a JSON or PDF file") s
      else use_file_data chain (f.text >>= parse_file) (record s { uploaded_file = some f.name })

  -- The rest of `handleQRCodeScanned`: the toast comes before the answer of the chain. An error of
  -- the URL's is dropped by `scanQRCode`.
  unfoldable pub use_scanned : Option Api → Settled String → VerifyState → VerifyState
  unfolding admit begin finish
  use_scanned chain (err m) s = s
  use_scanned chain (ok h) s =
      let checked = admit chain h in
      finish checked h (
        toast (success "QR Code scanned successfully!")
          (begin checked (record s { hash_input = h; method = hash })))

  -- `handleQRCodeScanned`; `url_hash` is `new URL(data).searchParams.get('hash')`.
  unfoldable pub handle_qr_code_scanned :
      (url_hash : String → Settled (Option String))
      → Option Api
      → String
      → VerifyState
      → VerifyState
  unfolding use_scanned stop_camera
  handle_qr_code_scanned url_hash chain scanned s =
      use_scanned chain
        (if includes scanned "/verify?hash="
          then (url_hash scanned >>= λ found. ok (str_or found scanned))
          else ok scanned)
        (record (stop_camera s) { show_qr_scanner = false })
