-- ===== src/Pages/Holder.antt =====
-- academic-verification-frontend/src/pages/Credentials.tsx. The page's state, with the credentials and
-- the loading flag of the store, is a record; a toast is modelled by its kind and its title. The chain
-- is an argument: `none` stands for `!queries`. `JSON.parse` and `hexToString` are parameters. The
-- queries catch their own errors, so the `catch` blocks are not reached.
pub mod Laws
mod Tests
use academic_verification.Prelude.{
  String, Bool, true, false, not, ◌==◌, Option, none, some, List, [], ◌∷◌, ◌++◌, map, Settled, ok,
  err, truthy_str, if◌then◌else◌,
}
use academic_verification.Hex.{decode_hex, decode_hex_string, truthy_value}
use academic_verification.Chain.{Api, InstitutionData}
use academic_verification.Integration.Format.{Credential}
use academic_verification.Queries.Real
use academic_verification.Credential.List.{ListedCredential}
use academic_verification.Provider.Wallet.{Toast, success}

-- What the page reads of parsed metadata: `null`, or the four properties.
pub data Parsed : Type 0 where
  null_metadata : Parsed
  fields : (degree_name name field_of_study field : Option String) → Parsed

pub record HolderState : Type 0 where
  pub credentials : List ListedCredential
  pub loading : Bool
  pub refreshing : Bool
  pub fetch_error : Option String
  pub toasts : List Toast

abbrev pub toast : Toast → HolderState → HolderState
toast t s = record s { toasts = s.toasts ++ t ∷ [] }

-- `b || undefined`
unfoldable pub named : Option String → Option String
named none = none
named (some b) = if b == "" then none else some b

-- `a || b || undefined` of two properties
unfoldable pub first_named : Option String → Option String → Option String
unfolding named
first_named none b = named b
first_named (some a) b = if a == "" then named b else some a

module _ (hex_to_string : String → Settled String) (parse_json : String → Settled Parsed) where
  -- The `try` of `extractDegreeName`; a property of `null` throws.
  unfoldable pub degree_of : String → Settled Parsed → Option String
  unfolding first_named
  degree_of metadata (ok (fields d n f g)) = first_named d n
  degree_of metadata (ok null_metadata) = some metadata
  degree_of metadata (err m) = some metadata

  unfoldable pub extract_degree_name : Option String → Option String
  unfolding degree_of
  extract_degree_name none = none
  extract_degree_name (some m) =
      if m == "" then none else degree_of m (parse_json (decode_hex hex_to_string m))

  unfoldable pub field_of : Settled Parsed → Option String
  unfolding first_named
  field_of (ok (fields d n f g)) = first_named f g
  field_of (ok null_metadata) = none
  field_of (err m) = none

  unfoldable pub extract_field_of_study : Option String → Option String
  unfolding field_of
  extract_field_of_study none = none
  extract_field_of_study (some m) =
      if m == "" then none else field_of (parse_json (decode_hex hex_to_string m))

  -- `issuerName`
  unfoldable pub issuer_name_of : Option InstitutionData → Option String
  unfolding decode_hex_string
  issuer_name_of none = none
  issuer_name_of (some i) =
      if truthy_value i.name then some (decode_hex_string hex_to_string i.name) else none

  -- One item of `credentialsWithInstitutionNames`.
  unfoldable pub listed_of : Api → Credential → ListedCredential
  unfolding issuer_name_of extract_degree_name extract_field_of_study
  listed_of api c = record {
    credential = c;
    issuer_name = issuer_name_of (Real.get_institution api c.issuer);
    degree_name = extract_degree_name c.metadata;
    field_of_study = extract_field_of_study c.metadata;
  }

  -- The `try` block for the answer of the query, and `finally`.
  unfoldable pub show_credentials : Api → List Credential → HolderState → HolderState
  unfolding listed_of
  show_credentials api [] s = record s { credentials = []; loading = false }
  show_credentials api (c ∷ cs) s =
      toast (success "Found credential(s)")
        (record s { credentials = map (listed_of api) (c ∷ cs); loading = false })

  unfoldable pub fetch_credentials : Option Api → Option String → HolderState → HolderState
  unfolding show_credentials
  fetch_credentials none did s = s
  fetch_credentials (some api) none s = s
  fetch_credentials (some api) (some did) s =
      if did == ""
      then s
      else show_credentials api (Real.get_credentials_by_holder api did)
          (record s { loading = true; fetch_error = none })

  unfoldable pub handle_refresh : Option Api → Option String → HolderState → HolderState
  unfolding fetch_credentials
  handle_refresh chain did s =
      toast (success "Credentials refreshed")
        (record (fetch_credentials chain did (record s { refreshing = true })) {
          refreshing = false;
        })
