-- ===== src/Queries/Real/Tests.antt =====
-- Runs of the queries on a chain with one credential.
use academic_verification.Prelude.{
  String, true, false, none, some, [], ◌∷◌, map, somes, ◌≡◌, refl, ◌↔◌, ok, err, ◌==◌,
  if◌then◌else◌,
}
use academic_verification.Hex.{str}
use academic_verification.Integration.Types.{text, format_credential_type}
use academic_verification.Integration.Timestamp.{normalize_timestamp}
use academic_verification.Integration.Format.{
  Credential, format_credential_data, check_pallet_availability,
}
use academic_verification.Chain.{Api, RawCredential, InstitutionData}
use academic_verification.Queries.Plain
use academic_verification.Queries.Plain.{zero_score}
use academic_verification.Queries.Real
use academic_verification.Queries.Real.{map_some, with_keys}
use academic_verification.Queries.Real.Laws.{IsStored, get_credential_by_hash-IsStored}
use academic_verification.Queries.Real.Agreement.{HasPallets, shown, credential_queries_agree}

abbrev pub degree : RawCredential
degree = record {
  credential_id = "0x01";
  holder = "5Stu";
  issuer = "5Uni";
  credential_hash = "0xabcdef0123";
  credential_type = text "Degree";
  metadata = none;
  issued_at = some 180;
  expires_at = some 14580;
  status = "Active";
}

abbrev pub degree_shown : Credential
degree_shown = record {
  id = "0x01";
  holder = "5Stu";
  issuer = "5Uni";
  credential_hash = "0xabcdef0123";
  credential_type = "Bachelor's Degree";
  metadata = none;
  issued_at = 1700000000000;
  expires_at = none;
  revoked = false;
}

abbrev university : InstitutionData
university = record { name = str "Uni"; did = none; verified = some true; registered_at = none }

abbrev pub api : Api
api = record {
  has_pallet = λ p. ok true;
  did_documents = λ a. ok none;
  institutions = λ a. if a == "5Uni" then ok (some university) else ok none;
  institution_entries = ok [];
  credentials = λ i. if i == "0x01" then ok (some degree) else ok none;
  credential_by_hash = λ h. if h == "0xabcdef0123" then ok (some "0x01") else ok none;
  credentials_by_holder = λ a. ok (some (record { credential_id = "0x01" } ∷ []));
  credentials_by_issuer = λ a. ok (some ("0x02" ∷ ("0x01" ∷ [])));
  reputation_scores = λ a. err "offline";
  endorsements_received = λ a. ok none;
  endorsements_given = λ a. ok none;
  decode_metadata = λ m. ok m;
  now = 1700000000000;
}

degree_by_hash : Real.get_credential_by_hash api "0xabcdef0123" ≡ some degree_shown
unfolding Real.get_credential_by_hash Real.get_credential format_credential_data
    check_pallet_availability format_credential_type normalize_timestamp
degree_by_hash = refl

get_credential_by_hash-IsStored_example :
    (Real.get_credential_by_hash api "0xabcdef0123" ≡ some degree_shown) ↔ (
      (id : String) × (api.credential_by_hash "0xabcdef0123" ≡ ok (some id))
      × IsStored api id degree_shown)
get_credential_by_hash-IsStored_example =
    get_credential_by_hash-IsStored api "0xabcdef0123" degree_shown

api-HasPallets : HasPallets api
unfolding check_pallet_availability
api-HasPallets = record { did = refl; credential = refl; reputation = refl }

credential_queries_agree_example :
    (Real.get_credential api "0x01" ≡ shown api (Plain.get_credential api "0x01"))
    × (Real.get_credential_by_hash api "0x01" ≡ shown api (Plain.get_credential_by_hash api "0x01"))
    × (Real.get_credentials_by_holder api "0x01"
        ≡ somes (map (λ c. shown api (some c)) (Plain.get_credentials_by_holder api "0x01")))
    × (Real.get_credentials_by_issuer api "0x01"
        ≡ somes (map (λ c. shown api (some c)) (Plain.get_credentials_by_issuer api "0x01")))
credential_queries_agree_example = credential_queries_agree api api-HasPallets "0x01"
