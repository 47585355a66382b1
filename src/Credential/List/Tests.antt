-- ===== src/Credential/List/Tests.antt =====
-- Runs of the list.
use academic_verification.Prelude.{String, Bool, true, none, some, Settled, err}
use academic_verification.Queries.Real.Tests.{degree_shown}
use academic_verification.Credential.List
use academic_verification.Credential.List.{
  ListedCredential, Choices, decoded, passes_search, passes_status, passes_type, in_order,
  filtered_credentials,
}

abbrev degree : ListedCredential
degree = record {
  credential = degree_shown;
  issuer_name = some "Uni";
  degree_name = some "Computer Science";
  field_of_study = none;
}

abbrev older : ListedCredential
older = record degree { credential = record degree_shown { issued_at = 1600000000000 } }

abbrev choices : Choices
choices = record {
  search_query = "Science";
  filter_status = List.active;
  filter_type = none;
  sort_by = List.newest;
}

abbrev hex_to_string : String → Settled String
hex_to_string s = err "not hex"

abbrev lower : String → String
lower s = s

-- All texts are as good as equal.
abbrev before : String → String → Bool
before a b = true
