-- ===== src/Pages/Dashboard/Tests.antt =====
-- The dashboard of an institution that issued two credentials.
use academic_verification.Prelude.{String, true, some, ok, ◌≢◌, eq_iff}
use academic_verification.Chain.{Api}
use academic_verification.Queries.Plain.{zero_score}
use academic_verification.Queries.Real.Tests
use academic_verification.Store.Did.{DidState, initial}

abbrev api : Api
api = record Tests.api { reputation_scores = λ a. ok (some zero_score) }

abbrev issuer : DidState
issuer = record initial { has_did = true; did_address = some "5Uni"; is_institution = true }

abbrev institution : String
institution = "5Uni"

address_not_empty : institution ≢ ""
address_not_empty e = let never = (eq_iff "5Uni" "").1 e in cc
