-- ===== src/Pallets/Serving/Verdicts.antt =====
-- What the page of academic-verification-frontend/src/components/credentials/VerifyCredential.tsx says
-- of a hash, against what was called on the chain that its node serves.
use Prim.Native.String.{count}
use academic_verification.Prelude.{
  ℕ, ◌<◌, String, false, Option, none, some, Settled, ok, ◌==◌, ◌≡◌, ◌≢◌, refl, ap, sym, ◌∙◌, ◌↔◌,
  ok-injective, some-injective,
}
use academic_verification.Chain.{Api, RawCredential}
use academic_verification.Integration.Format.{format_credential_data}
use academic_verification.Integration.Format as Format
use academic_verification.Integration.Format.Laws.{format_credential_data-IsFormat}
use academic_verification.Credential.Status.{has_expired}
use academic_verification.Credential.Verify.{
  VerifyState, VerificationStatus, Metadata, null_metadata, valid_credential,
  get_verification_status, parse_metadata, verify_by_hash,
}
use academic_verification.Credential.Verify.Laws.{verify_by_hash-valid}
use academic_verification.Pallets.Base.{H256, Bytes}
use academic_verification.Pallets.Credential.{
  Credential, CredentialStatus, CredentialStorage, active, revoked, expired, is_revoked,
}
use academic_verification.Pallets.Serving.{raw_of, raw_if_any, status_name, Serves}

revoked_name : (z : CredentialStatus) → (status_name z == "Revoked") ≡ is_revoked z
revoked_name active = refl
revoked_name revoked = refl
revoked_name expired = refl

raw_if_any-eq-some :
    (to_hex : Bytes → String) (o : Option Credential) (raw : RawCredential)
    → raw_if_any to_hex o ≡ some raw
    → (d : Credential) × (o ≡ some d) × (raw_of to_hex d ≡ raw)
raw_if_any-eq-some to_hex none raw h = cc
raw_if_any-eq-some to_hex (some d) raw h = (d, refl, some-injective _ _ h)

-- A credential that the chain keeps for a hash, as the frontend reads it, that is not revoked, has not
-- expired and has metadata that are not `null`.
pub record IsValid (to_hex : Bytes → String) (parsed : Option String → Metadata)
    (s : CredentialStorage) (api : Api) (h : H256) (now : ℕ) : Type 0 where
  pub id : H256
  pub kept : Credential
  pub shown : Format.Credential
  pub hashed : s.credential_by_hash h ≡ some id
  pub stored : s.credentials id ≡ some kept
  pub formatted : format_credential_data api (raw_of to_hex kept) ≡ ok shown
  pub unrevoked : is_revoked kept.status ≡ false
  pub unexpired : has_expired now shown.expires_at ≡ false
  pub present : parsed shown.metadata ≢ null_metadata

module _ (to_hex : Bytes → String) (hex_to_string : String → Settled String)
    (parse_json : String → Settled Metadata) (api : Api) (now : ℕ) (page : VerifyState) where
  -- The verdict of the page on a hash.
  abbrev pub verdict_on : H256 → Settled (Option VerificationStatus)
  verdict_on h =
      get_verification_status now
        (verify_by_hash hex_to_string parse_json (some api) h page).verification_result

  abbrev pub parsed : Option String → Metadata
  parsed = parse_metadata hex_to_string parse_json

  same_revoked :
      (d : Credential) (f : Format.Credential)
      → format_credential_data api (raw_of to_hex d) ≡ ok f
      → f.revoked ≡ is_revoked d.status
  same_revoked d f h =
      (format_credential_data-IsFormat api (raw_of to_hex d) f h).revoked ∙ revoked_name d.status

  -- On a connected page whose node serves a storage, a hash of at least ten characters is called
  -- valid exactly if the storage keeps a credential for it that can be read, is not revoked, has not
  -- expired and whose metadata are not `null`.
  pub verify_by_hash-IsValid :
      (s : CredentialStorage) (h : H256)
      → Serves to_hex s api
      → 9 < count h
      → (verdict_on h ≡ ok (some valid_credential)) ↔ IsValid to_hex parsed s api h now
  verify_by_hash-IsValid s h served long = (
    λ e.
        let (id, f, kept, stored, unrevoked, unexpired, present) =
          (verify_by_hash-valid hex_to_string parse_json api h page now long).0 e in
        let hashed : s.credential_by_hash h ≡ some id =
          ok-injective _ _ (sym (served.hashes h) ∙ kept) in
        let (d, there, same) =
          raw_if_any-eq-some to_hex (s.credentials id) stored.raw
            (ok-injective _ _ (sym (served.credentials id) ∙ stored.stored)) in
        let formatted = ap (format_credential_data api) same ∙ stored.formatted in
        record {
          id = id;
          kept = d;
          shown = f;
          hashed = hashed;
          stored = there;
          formatted = formatted;
          unrevoked = sym (same_revoked d f formatted) ∙ unrevoked;
          unexpired = unexpired;
          present = present;
        },
    λ v. (verify_by_hash-valid hex_to_string parse_json api h page now long).1 (
      v.id,
      v.shown,
      served.hashes h ∙ ap ok v.hashed,
      record {
        raw = raw_of to_hex v.kept;
        available = served.available;
        stored = served.credentials v.id ∙ ap (λ o. ok (raw_if_any to_hex o)) v.stored;
        formatted = v.formatted;
      },
      same_revoked v.kept v.shown v.formatted ∙ v.unrevoked,
      v.unexpired,
      v.present,
    ),
  )
