-- ===== src/Integration/Format/Laws.antt =====
-- The fields of a formatted credential.
use academic_verification.Prelude.{
  ℕ, ◌<◌, ◌==◌, none, some, ok, ◌≡◌, sym, ap, ◌∙◌, >>=-eq-ok, ok-injective, num_or,
}
use academic_verification.Chain.{Api, RawCredential}
use academic_verification.Integration.Types.{format_credential_type}
use academic_verification.Integration.Timestamp.{year_2000_unix, normalize_timestamp}
use academic_verification.Integration.Timestamp.Laws.{normalize_timestamp-none}
use academic_verification.Integration.Format.{Credential, format_credential_data, decode_if_present}

-- What a formatted credential takes from the record on the chain.
pub record IsFormat (api : Api) (raw : RawCredential) (c : Credential) : Type 0 where
  pub shown : format_credential_type raw.credential_type ≡ ok c.credential_type
  pub id : c.id ≡ raw.credential_id
  pub hash : c.credential_hash ≡ raw.credential_hash
  pub issuer : c.issuer ≡ raw.issuer
  pub holder : c.holder ≡ raw.holder
  pub revoked : c.revoked ≡ (raw.status == "Revoked")
  pub issued_at : c.issued_at ≡ num_or (normalize_timestamp raw.issued_at) api.now
  pub expires_at : c.expires_at ≡ normalize_timestamp raw.expires_at

pub format_credential_data-IsFormat :
    (api : Api) (raw : RawCredential) (c : Credential)
    → format_credential_data api raw ≡ ok c
    → IsFormat api raw c
unfolding format_credential_data
format_credential_data-IsFormat api raw c e =
    let (shown, e₁, rest) = >>=-eq-ok (format_credential_type raw.credential_type) _ c e in
    let (decoded, e₂, last) = >>=-eq-ok (decode_if_present api raw.metadata) _ c rest in
    let same = ok-injective _ c last in
    record {
      shown = e₁ ∙ ap (λ (x : Credential). ok x.credential_type) same;
      id = sym (ap (λ (x : Credential). x.id) same);
      hash = sym (ap (λ (x : Credential). x.credential_hash) same);
      issuer = sym (ap (λ (x : Credential). x.issuer) same);
      holder = sym (ap (λ (x : Credential). x.holder) same);
      revoked = sym (ap (λ (x : Credential). x.revoked) same);
      issued_at = sym (ap (λ (x : Credential). x.issued_at) same);
      expires_at = sym (ap (λ (x : Credential). x.expires_at) same);
    }

-- A record whose issue date and expiry are block numbers, as those of the chain are, is shown as
-- issued at the moment of the query, and as never expiring.
pub format_credential_data_blocks :
    (api : Api) (raw : RawCredential) (c : Credential) (issued expires : ℕ)
    → raw.issued_at ≡ some issued
    → raw.expires_at ≡ some expires
    → issued < year_2000_unix
    → expires < year_2000_unix
    → format_credential_data api raw ≡ ok c
    → (c.issued_at ≡ api.now) × (c.expires_at ≡ none)
format_credential_data_blocks api raw c issued expires p q h k e =
    let f = format_credential_data-IsFormat api raw c e in
    (
      f.issued_at
          ∙ ap (λ o. num_or (normalize_timestamp o) api.now) p
          ∙ ap (λ o. num_or o api.now) ((normalize_timestamp-none issued).1 h),
      f.expires_at ∙ ap normalize_timestamp q ∙ (normalize_timestamp-none expires).1 k,
    )
