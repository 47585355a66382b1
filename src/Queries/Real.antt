-- ===== src/Queries/Real.antt =====
-- academic-verification-frontend/src/lib/blockchain/realQueries.ts
pub mod Laws
pub mod Agreement
pub mod Tests
use academic_verification.Prelude.{
  String, Bool, true, false, Option, none, some, List, [], map, somes, Settled, ok, ◌>>=◌, or_else,
  is_some, get_or, if◌then◌else◌, ℕ,
}
use academic_verification.Hex.{Value}
use academic_verification.Chain.{
  Api, DidDocument, PublicKeyData, InstitutionData, RawCredential, CredentialRef, ReputationScore,
  Endorsement,
}
use academic_verification.Integration.Format.{
  Credential, format_credential_data, check_pallet_availability,
}
use academic_verification.Queries.Plain.{zero_score, verified_true}

-- `publicKeys: data.publicKeys || []`
abbrev pub with_keys : DidDocument → DidDocument
with_keys d = record d { public_keys = some (get_or d.public_keys []) }

-- An item of `getAllInstitutions`.
pub record InstitutionEntry : Type 0 where
  pub address : String
  pub name : Value
  pub verified : Option Bool
  pub registered_at : Option ℕ

abbrev pub entry_of : String × Option InstitutionData → Option InstitutionEntry
entry_of (address, none) = none
entry_of (address, some i) = some (record {
  address = address;
  name = i.name;
  verified = i.verified;
  registered_at = i.registered_at;
})

-- `getUserData`
pub record UserData : Type 0 where
  pub did : Option DidDocument
  pub institution : Option InstitutionData
  pub credentials : List Credential
  pub reputation : ReputationScore
  pub is_institution : Bool
  pub is_verified : Bool

-- `getInstitutionData`
pub record InstitutionView : Type 0 where
  pub institution : Option InstitutionData
  pub issued_credentials : List Credential
  pub reputation : ReputationScore
  pub endorsements_received : List Endorsement
  pub is_verified : Bool

abbrev pub map_some : {A B : Type 0} → (A → B) → Option A → Option B
map_some f none = none
map_some f (some a) = some (f a)

module _ (api : Api) where
  -- A method that first asks for its pallet, and falls back on `d` without it or on an error.
  abbrev pub guarded {ℓ} : {A : Type ℓ} → String → A → Settled A → A
  guarded pallet d m = if check_pallet_availability api pallet then or_else m d else d

  unfoldable pub get_did : String → Option DidDocument
  get_did address =
      guarded "did" none (do doc ← api.did_documents address; ok (map_some with_keys doc))

  unfoldable pub get_institution : String → Option InstitutionData
  get_institution address = guarded "did" none (do i ← api.institutions address; ok i)

  unfoldable pub is_institution : String → Bool
  unfolding get_institution
  is_institution address = is_some (get_institution address)

  unfoldable pub is_verified_institution : String → Bool
  unfolding get_institution
  is_verified_institution address = verified_true (get_institution address)

  unfoldable pub get_all_institutions : List InstitutionEntry
  get_all_institutions =
      guarded "did" [] (do entries ← api.institution_entries; ok (somes (map entry_of entries)))

  abbrev pub formatted : Option RawCredential → Settled (Option Credential)
  formatted none = ok none
  formatted (some raw) = do c ← format_credential_data api raw; ok (some c)

  unfoldable pub get_credential : String → Option Credential
  get_credential id = guarded "credential" none (do stored ← api.credentials id; formatted stored)

  abbrev pub by_id : Option String → Option Credential
  by_id none = none
  by_id (some id) = get_credential id

  unfoldable pub get_credential_by_hash : String → Option Credential
  get_credential_by_hash hash =
      guarded "credential" none (do id ← api.credential_by_hash hash; ok (by_id id))

  unfoldable pub get_credentials_by_holder : String → List Credential
  get_credentials_by_holder address = guarded "credential" [] (do
    refs ← api.credentials_by_holder address
    ok (somes (map (λ (r : CredentialRef). get_credential r.credential_id) (get_or refs []))))

  unfoldable pub get_credentials_by_issuer : String → List Credential
  get_credentials_by_issuer address =
      guarded "credential" [] (do
        ids ← api.credentials_by_issuer address
        ok (somes (map get_credential (get_or ids []))))

  unfoldable pub verify_credential_exists : String → Bool
  verify_credential_exists hash = is_some (get_credential_by_hash hash)

  unfoldable pub get_reputation_score : String → ReputationScore
  get_reputation_score address =
      guarded "reputation" zero_score
        (do score ← api.reputation_scores address; ok (get_or score zero_score))

  unfoldable pub get_endorsements_received : String → List Endorsement
  get_endorsements_received address =
      guarded "reputation" [] (do es ← api.endorsements_received address; ok (get_or es []))

  unfoldable pub get_endorsements_given : String → List Endorsement
  get_endorsements_given address =
      guarded "reputation" [] (do es ← api.endorsements_given address; ok (get_or es []))

  -- The four queries never reject, so `Promise.all` does not, and the `catch` is not reached.
  unfoldable pub get_user_data : String → UserData
  get_user_data address =
      let institution = get_institution address in
      record {
        did = get_did address;
        institution = institution;
        credentials = get_credentials_by_holder address;
        reputation = get_reputation_score address;
        is_institution = is_some institution;
        is_verified = verified_true institution;
      }

  unfoldable pub get_institution_data : String → InstitutionView
  get_institution_data address =
      let institution = get_institution address in
      record {
        institution = institution;
        issued_credentials = get_credentials_by_issuer address;
        reputation = get_reputation_score address;
        endorsements_received = get_endorsements_received address;
        is_verified = verified_true institution;
      }
