-- ===== src/Store/Credentials.antt =====
-- academic-verification-frontend/src/store/credentials.store.ts
pub mod Laws
use academic_verification.Prelude.{String, Bool, false, not, ◌==◌, List, [], ◌∷◌, ◌++◌, filter}
use academic_verification.Integration.Format.{Credential}

pub record CredentialsState : Type 0 where
  pub credentials : List Credential
  pub issued_credentials : List Credential
  pub loading : Bool

abbrev pub initial : CredentialsState
initial = record { credentials = []; issued_credentials = []; loading = false }

unfoldable pub add_credential : Credential → CredentialsState → CredentialsState
add_credential c s = record s { credentials = s.credentials ++ c ∷ [] }

unfoldable pub remove_credential : String → CredentialsState → CredentialsState
remove_credential id s = record s { credentials = filter (λ c. not (c.id == id)) s.credentials }

unfoldable pub set_credentials : List Credential → CredentialsState → CredentialsState
set_credentials cs s = record s { credentials = cs }

unfoldable pub set_issued_credentials : List Credential → CredentialsState → CredentialsState
set_issued_credentials cs s = record s { issued_credentials = cs }

unfoldable pub set_loading : Bool → CredentialsState → CredentialsState
set_loading b s = record s { loading = b }
