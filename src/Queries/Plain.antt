-- ===== src/Queries/Plain.antt =====
-- academic-verification-frontend/src/lib/blockchain/queries.ts. A pallet that the node lacks makes
-- the access throw, which is an error of the query.
use academic_verification.Prelude.{
  String, Bool, false, Option, none, some, List, [], map, somes, ok, ◌>>=◌, or_else, is_some,
  get_or,
}
use academic_verification.Chain.{
  Api, DidDocument, InstitutionData, RawCredential, CredentialRef, ReputationScore, Endorsement,
}

abbrev pub zero_score : ReputationScore
zero_score = record {
  credentials_issued = 0;
  credentials_verified = 0;
  endorsements_received = 0;
  endorsements_given = 0;
  total_score = 0;
}

-- `institution?.verified === true`
abbrev pub verified_true : Option InstitutionData → Bool
verified_true none = false
verified_true (some i) = get_or i.verified false

module _ (api : Api) where
  unfoldable pub get_did : String → Option DidDocument
  get_did address = or_else (do doc ← api.did_documents address; ok doc) none

  unfoldable pub get_institution : String → Option InstitutionData
  get_institution address = or_else (do i ← api.institutions address; ok i) none

  unfoldable pub is_institution : String → Bool
  unfolding get_institution
  is_institution address = is_some (get_institution address)

  unfoldable pub is_verified_institution : String → Bool
  unfolding get_institution
  is_verified_institution address = verified_true (get_institution address)

  unfoldable pub get_credential : String → Option RawCredential
  get_credential id = or_else (do c ← api.credentials id; ok c) none

  abbrev pub by_id : Option String → Option RawCredential
  by_id none = none
  by_id (some id) = get_credential id

  unfoldable pub get_credential_by_hash : String → Option RawCredential
  unfolding get_credential
  get_credential_by_hash hash = or_else (do id ← api.credential_by_hash hash; ok (by_id id)) none

  -- `Promise.all` over calls that never reject.
  unfoldable pub get_credentials_by_holder : String → List RawCredential
  unfolding get_credential
  get_credentials_by_holder address =
      or_else
        (do
          refs ← api.credentials_by_holder address
          ok (somes (map (λ (r : CredentialRef). get_credential r.credential_id) (get_or refs []))))
        []

  unfoldable pub get_credentials_by_issuer : String → List RawCredential
  unfolding get_credential
  get_credentials_by_issuer address =
      or_else
        (do
          ids ← api.credentials_by_issuer address
          ok (somes (map get_credential (get_or ids []))))
        []

  -- A failed query gives `null`, an empty value the score of zeros.
  unfoldable pub get_reputation_score : String → Option ReputationScore
  get_reputation_score address =
      or_else (do score ← api.reputation_scores address; ok (some (get_or score zero_score))) none

  unfoldable pub get_endorsements_received : String → List Endorsement
  get_endorsements_received address =
      or_else (do es ← api.endorsements_received address; ok (get_or es [])) []

  unfoldable pub get_endorsements_given : String → List Endorsement
  get_endorsements_given address =
      or_else (do es ← api.endorsements_given address; ok (get_or es [])) []
