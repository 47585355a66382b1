-- ===== src/Pallets/Credential/Accepted.antt =====
-- When a call of pallets/credential succeeds.
use academic_verification.Prelude.{
  ℕ, true, false, not, Option, none, some, ◌==◌, ◌≡◌, refl, is_some,
}
use academic_verification.Pallets.Base.{
  AccountId, H256, Origin, signed, ok, credential, CredentialError, credential_not_found,
  credential_already_exists, credential_already_revoked, issuer_not_verified, issuer_has_no_did,
  holder_has_no_did, Config, signed-eq-ok, ensure-eq-ok, ok_or-eq-ok, ok-injective, not-eq-true,
}
use academic_verification.Pallets.Did.{DidStorage, DidDocument, Institution}
use academic_verification.Pallets.Credential
use academic_verification.Pallets.Credential.{
  CredentialStorage, Issuance, active, revoked, is_revoked, is_active, in_time, new_credential,
  store_credential, deposit_event, put_credential,
}

-- Who may issue to whom: a verified institution with an active document, to the holder of one.
pub record MayIssue (dids : DidStorage) (issuer holder : AccountId) : Type 0 where
  pub institution : Institution
  pub issuer_did : DidDocument
  pub holder_did : DidDocument
  pub registered : dids.institutions issuer ≡ some institution
  pub verified : institution.verified ≡ true
  pub issuer_known : dids.did_documents issuer ≡ some issuer_did
  pub issuer_active : issuer_did.active ≡ true
  pub holder_known : dids.did_documents holder ≡ some holder_did
  pub holder_active : holder_did.active ≡ true

-- An issuance that is admitted, by its issuer.
pub record IsIssued (cfg : Config) (now : ℕ) (dids : DidStorage) (o : Origin) (x : Issuance)
    (s t : CredentialStorage) : Type 0 where
  pub issuer : AccountId
  pub signer : o ≡ signed issuer
  pub allowed : MayIssue dids issuer x.holder
  pub unused : s.credential_by_hash x.credential_hash ≡ none
  pub stored : store_credential cfg (new_credential cfg now s.next_credential_id issuer x) s ≡ ok t

not_some : {A : Type 0} (m : Option A) → not (is_some m) ≡ true → m ≡ none
not_some none h = refl
not_some (some a) h = cc

pub issue_credential-IsIssued :
    (cfg : Config) (now : ℕ) (dids : DidStorage) (o : Origin) (x : Issuance)
    (s t : CredentialStorage)
    → Credential.issue_credential cfg now dids o x s ≡ ok t
    → IsIssued cfg now dids o x s t
unfolding Credential.issue_credential
issue_credential-IsIssued cfg now dids o x s t h =
    let (issuer, signer, h1) = signed-eq-ok o _ h in
    let (i, registered, h2) =
      ok_or-eq-ok (dids.institutions issuer) (credential issuer_not_verified) _ h1 in
    let (verified, h3) = ensure-eq-ok i.verified (credential issuer_not_verified) _ h2 in
    let (a, issuer_known, h4) =
      ok_or-eq-ok (dids.did_documents issuer) (credential issuer_has_no_did) _ h3 in
    let (issuer_active, h5) =
      ensure-eq-ok a.active (credential CredentialError.did_not_active) _ h4 in
    let (b, holder_known, h6) =
      ok_or-eq-ok (dids.did_documents x.holder) (credential holder_has_no_did) _ h5 in
    let (holder_active, h7) =
      ensure-eq-ok b.active (credential CredentialError.did_not_active) _ h6 in
    let (unused, h8) =
      ensure-eq-ok (not (is_some (s.credential_by_hash x.credential_hash)))
        (credential credential_already_exists) _ h7 in
    record {
      issuer = issuer;
      signer = signer;
      allowed = record {
        institution = i;
        issuer_did = a;
        holder_did = b;
        registered = registered;
        verified = verified;
        issuer_known = issuer_known;
        issuer_active = issuer_active;
        holder_known = holder_known;
        holder_active = holder_active;
      };
      unused = not_some (s.credential_by_hash x.credential_hash) unused;
      stored = h8;
    }

-- A revocation that succeeds.
pub record IsRevocation (o : Origin) (id : H256) (s t : CredentialStorage) : Type 0 where
  pub revoker : AccountId
  pub signer : o ≡ signed revoker
  pub before : Credential.Credential
  pub stored : s.credentials id ≡ some before
  pub own : (before.issuer == revoker) ≡ true
  pub fresh : is_revoked before.status ≡ false
  pub written :
      put_credential id
        (record before { status = revoked })
        (Credential.credential_revoked id revoker)
        s
      ≡ t

pub revoke_credential-IsRevocation :
    (o : Origin) (id : H256) (s t : CredentialStorage)
    → Credential.revoke_credential o id s ≡ ok t
    → IsRevocation o id s t
unfolding Credential.revoke_credential
revoke_credential-IsRevocation o id s t h =
    let (revoker, signer, h1) = signed-eq-ok o _ h in
    let (c, stored, h2) = ok_or-eq-ok (s.credentials id) (credential credential_not_found) _ h1 in
    let (own, h3) =
      ensure-eq-ok (c.issuer == revoker) (credential CredentialError.not_authorized) _ h2 in
    let (fresh, h4) =
      ensure-eq-ok (not (is_revoked c.status)) (credential credential_already_revoked) _ h3 in
    record {
      revoker = revoker;
      signer = signer;
      before = c;
      stored = stored;
      own = own;
      fresh = not-eq-true (is_revoked c.status) fresh;
      written = ok-injective _ _ h4;
    }
