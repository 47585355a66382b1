-- ===== src/Pages/Holder/Tests.antt =====
-- The page of a holder on a chain with one credential.
use academic_verification.Prelude.{
  String, true, false, some, none, List, [], Settled, ok, err, ◌≡◌, ◌≢◌, ◌↔◌, eq_iff, Among,
}
use academic_verification.Chain.{Api, CredentialRef}
use academic_verification.Integration.Format.{Credential}
use academic_verification.Queries.Real.Laws.{IsStored}
use academic_verification.Queries.Real.Tests.{api, degree_shown}
use academic_verification.Credential.List.{
  ListedCredential, Choices, all, newest, decoded, passes_search, passes_status, passes_type,
  filtered_credentials,
}
use academic_verification.Pages.Holder.{HolderState, Parsed, fields, listed_of, fetch_credentials}
use academic_verification.Pages.Holder.Laws.{filtered_credentials-fetch_credentials}

abbrev hex_to_string : String → Settled String
hex_to_string s = err "not hex"

abbrev parse_json : String → Settled Parsed
parse_json s = ok (fields (some "Physics") none none none)

abbrev page : HolderState
page = record {
  credentials = [];
  loading = false;
  refreshing = false;
  fetch_error = none;
  toasts = [];
}

abbrev choices : Choices
choices = record { search_query = ""; filter_status = all; filter_type = none; sort_by = newest }

abbrev card : ListedCredential
card = record {
  credential = degree_shown;
  issuer_name = some "Uni";
  degree_name = none;
  field_of_study = none;
}

abbrev student : String
student = "5Stu"

address_not_empty : student ≢ ""
address_not_empty e = let never = (eq_iff "5Stu" "").1 e in cc

filtered_credentials-fetch_credentials_example :
    Among card (
      filtered_credentials hex_to_string
        (λ t. t)
        (λ a b. true)
        0
        choices
        (fetch_credentials hex_to_string parse_json (some api) (some "5Stu") page).credentials)
    ↔ (((refs : List CredentialRef) × (ref : CredentialRef) × (c : Credential)
          × (api.credentials_by_holder "5Stu" ≡ ok (some refs))
          × Among ref refs
          × IsStored api ref.credential_id c
          × (card ≡ decoded hex_to_string (listed_of hex_to_string parse_json api c)))
        × (passes_search (λ t. t) "" card ≡ true)
        × (passes_status 0 all card ≡ true)
        × (passes_type none card ≡ true))
filtered_credentials-fetch_credentials_example =
    filtered_credentials-fetch_credentials hex_to_string parse_json (λ t. t) (λ a b. true) 0 choices
      api "5Stu" page card address_not_empty

abbrev offline : Api
offline = record api { credentials_by_holder = λ a. err "offline" }
