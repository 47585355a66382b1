-- ===== src/Provider/Wallet/Tests.antt =====
-- Runs of the wallet provider: an institution's account, then the account of a student.
use academic_verification.Prelude.{
  String, true, none, some, [], ◌∷◌, ◌≡◌, refl, Settled, ok, err, ◌==◌, if◌then◌else◌,
}
use academic_verification.Hex.{str}
use academic_verification.Chain.{Api, DidDocument, InstitutionData}
use academic_verification.Store.Wallet.{Account}
use academic_verification.Provider.Wallet.{
  AppState, enable_wallet, provider_select_account, optional_query,
}
use academic_verification.Provider.Wallet.Session.{
  IsWell, start_state, enabled, start, switched, Reach-IsWell,
}

abbrev hex : String → Settled String
hex s = ok s

abbrev document : DidDocument
document = record {
  controller = "5Uni";
  public_keys = none;
  created_at = some 7;
  updated_at = none;
  active = true;
}

abbrev university : InstitutionData
university = record { name = str "Uni"; did = none; verified = some true; registered_at = none }

-- "5Uni" is an institution, "5Stu" has a DID only, the others have nothing.
abbrev api : Api
api = record {
  has_pallet = λ p. ok true;
  did_documents = λ a.
      if a == "5Uni"
      then ok (some document)
      else if a == "5Stu"
      then ok (some document)
      else ok none;
  institutions = λ a. if a == "5Uni" then ok (some university) else ok none;
  institution_entries = ok [];
  credentials = λ i. ok none;
  credential_by_hash = λ h. err "offline";
  credentials_by_holder = λ a. ok none;
  credentials_by_issuer = λ a. ok none;
  reputation_scores = λ a. ok none;
  endorsements_received = λ a. ok none;
  endorsements_given = λ a. ok none;
  decode_metadata = λ m. ok m;
  now = 1700000000000;
}

abbrev offline : Api
offline = record api { did_documents = λ a. err "offline" }

abbrev uni : Account
uni = record { address = "5Uni"; name = none; source = none }

abbrev student : Account
student = record { address = "5Stu"; name = none; source = none }

abbrev as_university : AppState
as_university = enable_wallet hex (some api) (ok 1) (ok (uni ∷ (student ∷ []))) start_state

-- The student is taken for the institution whose account was selected before.
student_is_institution :
    (provider_select_account hex (some api) "5Stu" as_university).did.is_institution ≡ true
unfolding enable_wallet provider_select_account optional_query
student_is_institution = refl

document_found : optional_query api (api.did_documents "5Stu") ≡ ok (some document)
unfolding optional_query
document_found = refl

not_an_institution : optional_query api (api.institutions "5Stu") ≡ ok none
unfolding optional_query
not_an_institution = refl

nothing_found : optional_query api (api.did_documents "5New") ≡ ok none
unfolding optional_query
nothing_found = refl

query_fails : optional_query offline (offline.did_documents "5Stu") ≡ err "offline"
unfolding optional_query
query_fails = refl

Reach-IsWell_example : IsWell (provider_select_account hex (some api) "5Stu" as_university)
Reach-IsWell_example = Reach-IsWell hex (
    switched {s = as_university} (some api) "5Stu"
      (enabled {s = start_state} (some api) (ok 1) (ok (uni ∷ (student ∷ []))) start))
