-- ===== src/Pages/Profile/Tests.antt =====
-- The profile of an institution of which the chain keeps a block number.
use academic_verification.Prelude.{String, true, false, none, [], ◌≢◌, eq_iff}
use academic_verification.Pages.Profile.{ProfileState}

abbrev empty_page : ProfileState
empty_page = record {
  institution_data = none;
  reputation = none;
  issued_count = 0;
  loading = true;
  refreshing = false;
  toasts = [];
}

abbrev institution : String
institution = "5Uni"

address_not_empty : institution ≢ ""
address_not_empty e = let never = (eq_iff "5Uni" "").1 e in cc
