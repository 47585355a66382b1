-- ===== src/Pallets/Credential/Counter.antt =====
-- The counter of pallets/credential, from which ids are generated.
use academic_verification.Prelude.{ℕ, ◌+◌, min, ◌<◌, ◌==◌, ◌≡◌, ap, sym, arith, inl, inr, ◌⊎◌}
use academic_verification.Pallets.Base.{
  H256, Origin, ok, credential, CredentialError, credential_not_found, credential_not_active,
  u64_max, Config, signed-eq-ok, ensure-eq-ok, ok_or-eq-ok, ok-injective,
}
use academic_verification.Pallets.Did.{DidStorage}
use academic_verification.Pallets.Credential
use academic_verification.Pallets.Credential.{
  CredentialStorage, Issuance, active, revoked, is_revoked, is_active, in_time, new_credential,
  store_credential, deposit_event, put_credential,
}
use academic_verification.Pallets.Credential.Calls.{
  Call, dispatch, issue_credential, revoke_credential, verify_credential,
  update_credential_metadata,
}
use academic_verification.Pallets.Credential.Index.{store_credential-IsAdded}
use academic_verification.Pallets.Credential.Accepted.{
  issue_credential-IsIssued, revoke_credential-IsRevocation,
}

-- The counter stays, or goes up by one.
abbrev Counts : CredentialStorage → CredentialStorage → Type 0
Counts s t =
    (t.next_credential_id ≡ s.next_credential_id)
    ⊎ (t.next_credential_id ≡ min (s.next_credential_id + 1) u64_max)

counted :
    (s t : CredentialStorage) (id : H256) (c : Credential.Credential) (e : Credential.Event)
    → put_credential id c e s ≡ t
    → Counts s t
unfolding deposit_event
counted s t id c e written =
    inl (sym (ap (λ (u : CredentialStorage). u.next_credential_id) written))

dispatch_counts :
    (cfg : Config) (now : ℕ) (dids : DidStorage) (o : Origin) (c : Call) (s t : CredentialStorage)
    → dispatch cfg now dids o c s ≡ ok t
    → Counts s t
unfolding dispatch Credential.verify_credential Credential.update_credential_metadata deposit_event
dispatch_counts cfg now dids o (issue_credential x) s t h =
    let w = issue_credential-IsIssued cfg now dids o x s t h in
    inr (store_credential-IsAdded cfg _ s t w.stored).counter
dispatch_counts cfg now dids o (revoke_credential id) s t h =
    let w = revoke_credential-IsRevocation o id s t h in counted s t id _ _ w.written
dispatch_counts cfg now dids o (verify_credential hash) s t h = ground (arith, h)
dispatch_counts cfg now dids o (update_credential_metadata id m) s t h =
    let (updater, signer, h1) = signed-eq-ok o _ h in
    let (c, stored, h2) = ok_or-eq-ok (s.credentials id) (credential credential_not_found) _ h1 in
    let (own, h3) =
      ensure-eq-ok (c.issuer == updater) (credential CredentialError.not_authorized) _ h2 in
    let (good, h4) = ensure-eq-ok (is_active c.status) (credential credential_not_active) _ h3 in
    counted s t id _ _ (ok-injective _ _ h4)

-- Where there is room for an id after a call, there was before.
pub room_before :
    (cfg : Config) (now : ℕ) (dids : DidStorage) (o : Origin) (c : Call) (s t : CredentialStorage)
    → dispatch cfg now dids o c s ≡ ok t
    → t.next_credential_id < u64_max
    → s.next_credential_id < u64_max
room_before cfg now dids o c s t h room = elim (dispatch_counts cfg now dids o c s t h) [
  | inl e ↦ omega (arith, e)
  | inr e ↦ omega (arith, e)
]
