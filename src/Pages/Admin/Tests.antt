-- ===== src/Pages/Admin/Tests.antt =====
-- Runs of the administration page.
use academic_verification.Prelude.{
  String, true, false, none, some, Option, List, [], ◌∷◌, Settled, ok, err, ◌≡◌, refl,
}
use academic_verification.Integration.Format.{check_pallet_availability}
use academic_verification.Hex.{str}
use academic_verification.Chain.{Api, InstitutionData}
use academic_verification.Queries.Real.Tests.{api}
use academic_verification.Pages.Admin.{AdminState, Result}

abbrev page : AdminState
page = record {
  institutions =
      record { address = "5Uni"; name = "Uni"; registered_at = 7; verified = false } ∷ [];
  loading = false;
  verifying = none;
  revoking = none;
  toasts = [];
}

abbrev results : List Result
results =
    record { is_finalized = false; dispatch_error = none }
    ∷ (record { is_finalized = true; dispatch_error = none } ∷ [])

abbrev entries : List (String × Option InstitutionData)
entries =
    (
      "5Uni",
      some (record { name = str "Uni"; did = none; verified = some true; registered_at = none }),
    )
    ∷ (("5Old", none) ∷ [])

abbrev chain : Api
chain = record api { institution_entries = ok entries }

abbrev hex_to_string : String → Settled String
hex_to_string s = err "not hex"

chain_has_did : check_pallet_availability chain "did" ≡ true
unfolding check_pallet_availability
chain_has_did = refl
