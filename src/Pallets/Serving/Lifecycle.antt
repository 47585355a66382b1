-- ===== src/Pallets/Serving/Lifecycle.antt =====
-- The life of a credential from the call that issues it to the page that verifies it.
use Prim.Native.String.{count}
use academic_verification.Prelude.{
  ℕ, ◌<◌, String, false, some, Settled, ok, ◌≡◌, ◌≢◌, refl, ap, sym, ◌∙◌, ◌↔◌, some-injective,
  Among,
}
use academic_verification.Chain.{Api}
use academic_verification.Integration.Format.{format_credential_data}
use academic_verification.Integration.Format as Format
use academic_verification.Credential.Status.{has_expired}
use academic_verification.Credential.Verify.{VerifyState, Metadata, null_metadata, valid_credential}
use academic_verification.Pallets.Base as Base
use academic_verification.Pallets.Base.{
  H256, AccountId, Bytes, Origin, Result, signed, u64_max, Config, put, put_self,
}
use academic_verification.Pallets.Credential.{
  Credential, CredentialStorage, Issuance, revoked, is_revoked, new_credential, reference_of,
  deposit_event,
}
use academic_verification.Pallets.Credential.Calls.{
  Call, dispatch, issue_credential, revoke_credential,
}
use academic_verification.Pallets.Credential.Index.{store_credential-IsAdded}
use academic_verification.Pallets.Credential.Indexed.{HasNoCollision}
use academic_verification.Pallets.Credential.Accepted.{
  issue_credential-IsIssued, revoke_credential-IsRevocation,
}
use academic_verification.Pallets.Runtime.{
  Runtime, credential, committed, apply, genesis, Reach, call,
}
use academic_verification.Pallets.Runtime.Invariant.{IsEntitled}
use academic_verification.Pallets.Runtime.History.{Reach-IsSound, Reach-Lasts}
use academic_verification.Pallets.Serving.{raw_of, Serves}
use academic_verification.Pallets.Serving.Verdicts.{verdict_on, parsed, verify_by_hash-IsValid}

-- The storage after a call of the credential pallet that succeeds.
after_call :
    (cfg : Config) (o : Origin) (c : Call) (s : Runtime) (u : CredentialStorage)
    → dispatch cfg s.block_number s.did o c s.credential ≡ Base.ok u
    → (apply cfg o (credential c) s).credential ≡ u
unfolding apply
after_call cfg o c s u h = ap (committed s.credential) h

module _ (to_hex : Bytes → String) (hex_to_string : String → Settled String)
    (parse_json : String → Settled Metadata) (api : Api) (now : ℕ) (page : VerifyState)
    (cfg : Config) (injective : HasNoCollision cfg) where
  -- On a connected page whose node serves a chain that started empty, whatever was called on it, a
  -- hash of at least ten characters that is called valid belongs to a credential that the chain
  -- keeps and that is not revoked, whose issuer is a registered institution with a document, whose
  -- holder has a document, and which the chain lists for both.
  pub verify_by_hash-IsEntitled :
      (t : Runtime) (h : H256)
      → Reach cfg genesis t
      → t.credential.next_credential_id < u64_max
      → Serves to_hex t.credential api
      → 9 < count h
      → verdict_on to_hex hex_to_string parse_json api now page h ≡ ok (some valid_credential)
      → (id : H256) × (c : Credential) × (t.credential.credentials id ≡ some c)
        × (c.credential_hash ≡ h)
        × (is_revoked c.status ≡ false)
        × IsEntitled t.did c
        × Among (reference_of c) (t.credential.credentials_by_holder c.holder)
        × Among id (t.credential.credentials_by_issuer c.issuer)
  verify_by_hash-IsEntitled t h path room served long e =
      let v =
        (verify_by_hash-IsValid to_hex hex_to_string parse_json api now page t.credential h served
            long).0
          e in
      let sound = Reach-IsSound cfg t injective path room in
      let (b, stored, same) = sound.indexed.found h v.id v.hashed in
      let one : b ≡ v.kept = some-injective _ _ (sym stored ∙ v.stored) in
      let w = sound.indexed.stored v.id v.kept v.stored in
      (
        v.id,
        v.kept,
        v.stored,
        ap (λ (x : Credential). x.credential_hash) (sym one) ∙ same,
        v.unrevoked,
        sound.entitled v.id v.kept v.stored,
        w.held,
        w.issued,
      )

  -- After a call that issued a credential, whatever is called afterwards, the chain keeps it for the
  -- holder, type and expiration that were given, of the issuer that signed, and a connected page of
  -- a node that serves the chain calls its hash, of at least ten characters, valid exactly if it can
  -- be read, is not revoked by then, has not expired and its metadata are not `null`.
  pub issue_credential-verify_by_hash :
      (s t : Runtime) (o : Origin) (x : Issuance) (u : CredentialStorage)
      → Reach cfg genesis s
      → dispatch cfg s.block_number s.did o (issue_credential x) s.credential ≡ Base.ok u
      → Reach cfg (apply cfg o (credential (issue_credential x)) s) t
      → t.credential.next_credential_id < u64_max
      → Serves to_hex t.credential api
      → 9 < count x.credential_hash
      → (id : H256) × (d : Credential) × (t.credential.credentials id ≡ some d)
        × (o ≡ signed d.issuer)
        × (d.holder ≡ x.holder)
        × (d.credential_type ≡ x.credential_type)
        × (d.expires_at ≡ x.expires_at)
        × ((verdict_on to_hex hex_to_string parse_json api now page x.credential_hash
              ≡ ok (some valid_credential))
            ↔ ((f : Format.Credential) × (format_credential_data api (raw_of to_hex d) ≡ ok f)
                × (is_revoked d.status ≡ false)
                × (has_expired now f.expires_at ≡ false)
                × (parsed to_hex hex_to_string parse_json api now page f.metadata ≢ null_metadata)))
  unfolding dispatch
  issue_credential-verify_by_hash s t o x u before h path room served long =
      let w = issue_credential-IsIssued cfg s.block_number s.did o x s.credential u h in
      let c = new_credential cfg s.block_number s.credential.next_credential_id w.issuer x in
      let added = store_credential-IsAdded cfg c s.credential u w.stored in
      let there : (apply cfg o (credential (issue_credential x)) s).credential.credentials
            c.credential_id
          ≡ some c =
        ap (λ (v : CredentialStorage). v.credentials c.credential_id)
          (after_call cfg o (issue_credential x) s u h)
        ∙ ap (λ m. m c.credential_id) added.credentials
        ∙ put_self c.credential_id (some c) s.credential.credentials in
      let (d, kept, lasts, hashed) =
        Reach-Lasts cfg (apply cfg o (credential (issue_credential x)) s) t c.credential_id c
          injective (call before o (credential (issue_credential x))) path room there in
      let valid =
        verify_by_hash-IsValid to_hex hex_to_string parse_json api now page t.credential
          x.credential_hash served long in
      (
        c.credential_id,
        d,
        kept,
        w.signer ∙ ap signed (sym lasts.issuer),
        lasts.holder,
        lasts.type,
        lasts.expires_at,
        (
          λ e.
              let v = valid.0 e in
              let same_id : v.id ≡ c.credential_id = some-injective _ _ (sym v.hashed ∙ hashed) in
              let one : v.kept ≡ d =
                some-injective _ _ (sym v.stored ∙ ap t.credential.credentials same_id ∙ kept) in
              (
                v.shown,
                ap (λ k. format_credential_data api (raw_of to_hex k)) (sym one) ∙ v.formatted,
                ap (λ (k : Credential). is_revoked k.status) (sym one) ∙ v.unrevoked,
                v.unexpired,
                v.present,
              ),
          λ (f, formatted, unrevoked, unexpired, present). valid.1 (record {
            id = c.credential_id;
            kept = d;
            shown = f;
            hashed = hashed;
            stored = kept;
            formatted = formatted;
            unrevoked = unrevoked;
            unexpired = unexpired;
            present = present;
          }),
        ),
      )

  -- After a call that revoked a credential, whatever is called afterwards, no connected page of a
  -- node that serves the chain calls its hash, of at least ten characters, valid.
  pub revoke_credential-verify_by_hash :
      (s t : Runtime) (o : Origin) (id : H256) (c : Credential) (u : CredentialStorage)
      → Reach cfg genesis s
      → s.credential.credentials id ≡ some c
      → dispatch cfg s.block_number s.did o (revoke_credential id) s.credential ≡ Base.ok u
      → Reach cfg (apply cfg o (credential (revoke_credential id)) s) t
      → t.credential.next_credential_id < u64_max
      → Serves to_hex t.credential api
      → 9 < count c.credential_hash
      → verdict_on to_hex hex_to_string parse_json api now page c.credential_hash
        ≢ ok (some valid_credential)
  unfolding dispatch deposit_event
  revoke_credential-verify_by_hash s t o id c u before stored h path room served long e =
      let w = revoke_credential-IsRevocation o id s.credential u h in
      let one : w.before ≡ c = some-injective _ _ (sym w.stored ∙ stored) in
      let b : Credential = record (w.before) { status = revoked } in
      let there : (apply cfg o (credential (revoke_credential id)) s).credential.credentials id
          ≡ some b =
        ap (λ (v : CredentialStorage). v.credentials id)
          (after_call cfg o (revoke_credential id) s u h ∙ sym w.written)
        ∙ put_self id (some b) s.credential.credentials in
      let (d, kept, lasts, hashed) =
        Reach-Lasts cfg (apply cfg o (credential (revoke_credential id)) s) t id b injective
          (call before o (credential (revoke_credential id))) path room there in
      let v =
        (verify_by_hash-IsValid to_hex hex_to_string parse_json api now page t.credential
            c.credential_hash served long).0
          e in
      let by_hash =
        ap (λ (k : Credential). t.credential.credential_by_hash k.credential_hash) one in
      let same_id : v.id ≡ id = some-injective _ _ (sym v.hashed ∙ sym by_hash ∙ hashed) in
      let last : v.kept ≡ d =
        some-injective _ _ (sym v.stored ∙ ap t.credential.credentials same_id ∙ kept) in
      let gone = ap (λ (k : Credential). is_revoked k.status) (last ∙ lasts.final refl) in
      let never = sym gone ∙ v.unrevoked in cc
