-- ===== src/Pallets/Credential/Sound.antt =====
-- What a call of pallets/credential that succeeds does to its storage.
use academic_verification.Prelude.{
  ℕ, ◌<◌, true, false, some, ◌==◌, ◌≡◌, refl, ap, sym, subst, arith, inl, inr, ◌⊎◌, ◌∙◌,
}
use academic_verification.Pallets.Base.{
  H256, Bytes, Origin, ok, credential, CredentialError, credential_not_found, credential_not_active,
  credential_expired, u64_max, Config, signed-eq-ok, ensure-eq-ok, ok_or-eq-ok, ok-injective,
}
use academic_verification.Pallets.Did.{DidStorage}
use academic_verification.Pallets.Credential
use academic_verification.Pallets.Credential.{
  CredentialStorage, Issuance, active, revoked, is_revoked, is_active, in_time, new_credential,
  store_credential, deposit_event, put_credential,
}
use academic_verification.Pallets.Credential.Calls.{
  Call, dispatch, issue_credential, revoke_credential, verify_credential,
  update_credential_metadata,
}
use academic_verification.Pallets.Credential.Index.{
  IsIndexed, IsStored, HasDistinctIds, store_credential-IsAdded,
}
use academic_verification.Pallets.Credential.Indexed.{
  next_is_free, IsAdded-IsIndexed, IsAdded-Evolves,
}
use academic_verification.Pallets.Credential.Changed.{
  Lasts, Lasts-refl, HasOrigin, put_credential-HasOrigin, Evolves, put_credential-IsIndexed,
  put_credential-Evolves,
}
use academic_verification.Pallets.Credential.Accepted.{
  MayIssue, IsIssued, issue_credential-IsIssued, revoke_credential-IsRevocation,
}
use academic_verification.Pallets.Base.{Entries-put}

-- What every call that succeeds does: the indexes agree again, the credentials last, and one that was
-- not there was issued by who may do so.
pub record IsSoundStep (cfg : Config) (dids : DidStorage) (s t : CredentialStorage) : Type 0 where
  pub indexed : IsIndexed cfg t
  pub evolves : Evolves s t
  pub origins :
      (j : H256) (a : Credential.Credential)
      → t.credentials j ≡ some a
      → HasOrigin s j a ⊎ MayIssue dids a.issuer a.holder

active_not_revoked : (z : Credential.CredentialStatus) → is_active z ≡ true → is_revoked z ≡ false
active_not_revoked active h = refl
active_not_revoked revoked h = cc
active_not_revoked Credential.expired h = refl

deposit_event-IsIndexed :
    {cfg : Config} (e : Credential.Event) {s : CredentialStorage}
    → IsIndexed cfg s
    → IsIndexed cfg (deposit_event e s)
unfolding deposit_event
deposit_event-IsIndexed {cfg} e {s} v = record {
  stored = λ j b p. same (v.stored j b p);
  found = v.found;
  held = v.held;
  authored = v.authored;
}
  where
    same :
        {j : H256} {b : Credential.Credential}
        → IsStored cfg s j b
        → IsStored cfg (deposit_event e s) j b
    same h = record {
      named = h.named;
      hashed = h.hashed;
      held = h.held;
      issued = h.issued;
      counter = h.counter;
      below = h.below;
      generated = h.generated;
    }

module _ (cfg : Config) (now : ℕ) (dids : DidStorage) (o : Origin) (s t : CredentialStorage)
    (v : IsIndexed cfg s) where
  IsIssued-step :
      (x : Issuance)
      → HasDistinctIds cfg
      → s.next_credential_id < u64_max
      → IsIssued cfg now dids o x s t
      → IsSoundStep cfg dids s t
  IsIssued-step x distinct room w =
      let c = new_credential cfg now s.next_credential_id w.issuer x in
      let added = store_credential-IsAdded cfg c s t w.stored in
      let free = next_is_free cfg s v distinct room w.issuer x.holder in
      record {
        indexed = IsAdded-IsIndexed cfg s t c v added free w.unused room refl;
        evolves = IsAdded-Evolves cfg s t c v added free w.unused room refl;
        origins = λ j a e.
            Entries-put (λ i b. HasOrigin s i b ⊎ MayIssue dids b.issuer b.holder) s.credentials
              c.credential_id c (inr w.allowed) (λ i b p. inl (b, p, Lasts-refl b)) j a
              (sym (ap (λ m. m j) added.credentials) ∙ e);
      }

  put_credential-step :
      (id : H256) (c d : Credential.Credential) (e : Credential.Event)
      → s.credentials id ≡ some c
      → Lasts c d
      → put_credential id d e s ≡ t
      → IsSoundStep cfg dids s t
  put_credential-step id c d e old same written = record {
    indexed = put_credential-IsIndexed cfg s t v id c d e old same written;
    evolves = put_credential-Evolves cfg s t v id c d e old same written;
    origins = λ j a p. inl (put_credential-HasOrigin cfg s t v id c d e old same written j a p);
  }

  -- A change of the status or the metadata of a credential that is not revoked.
  lasting :
      (c : Credential.Credential) (m : Bytes) (z : Credential.CredentialStatus)
      → is_revoked c.status ≡ false
      → Lasts c (record c { metadata = m; status = z })
  lasting c m z fresh = record {
    id = refl;
    hash = refl;
    holder = refl;
    issuer = refl;
    type = refl;
    issued_at = refl;
    expires_at = refl;
    final = λ r. let never = sym r ∙ fresh in cc;
  }

  revoke_credential-step :
      (id : H256) → Credential.revoke_credential o id s ≡ ok t → IsSoundStep cfg dids s t
  revoke_credential-step id h =
      let w = revoke_credential-IsRevocation o id s t h in
      put_credential-step id w.before _ _ w.stored
        (lasting w.before w.before.metadata revoked w.fresh) w.written

  update_credential_metadata-step :
      (id : H256) (m : Bytes)
      → Credential.update_credential_metadata o id m s ≡ ok t
      → IsSoundStep cfg dids s t
  unfolding Credential.update_credential_metadata
  update_credential_metadata-step id m h =
      let (updater, signer, h1) = signed-eq-ok o _ h in
      let (c, stored, h2) = ok_or-eq-ok (s.credentials id) (credential credential_not_found) _ h1 in
      let (own, h3) =
        ensure-eq-ok (c.issuer == updater) (credential CredentialError.not_authorized) _ h2 in
      let (good, h4) = ensure-eq-ok (is_active c.status) (credential credential_not_active) _ h3 in
      put_credential-step id c _ _ stored (lasting c m c.status (active_not_revoked c.status good))
        (ok-injective _ _ h4)

  verify_credential-step :
      (hash : H256) → Credential.verify_credential now o hash s ≡ ok t → IsSoundStep cfg dids s t
  unfolding Credential.verify_credential deposit_event
  verify_credential-step hash h =
      let (verifier, signer, h1) = signed-eq-ok o _ h in
      let (id, found, h2) =
        ok_or-eq-ok (s.credential_by_hash hash) (credential credential_not_found) _ h1 in
      let (c, stored, h3) = ok_or-eq-ok (s.credentials id) (credential credential_not_found) _ h2 in
      let (good, h4) = ensure-eq-ok (is_active c.status) (credential credential_not_active) _ h3 in
      let (valid, h5) =
        ensure-eq-ok (in_time now c.expires_at) (credential credential_expired) _ h4 in
      subst (IsSoundStep cfg dids s) (ok-injective _ _ h5) (record {
        indexed = deposit_event-IsIndexed _ v;
        evolves = record {
          credentials = λ j b p. (b, p, Lasts-refl b);
          hashes = λ i j p. p;
          counter = omega arith;
          issuers = λ a. omega arith;
        };
        origins = λ j a p. inl (a, p, Lasts-refl a);
      })

  pub dispatch-step :
      (call : Call)
      → HasDistinctIds cfg
      → s.next_credential_id < u64_max
      → dispatch cfg now dids o call s ≡ ok t
      → IsSoundStep cfg dids s t
  unfolding dispatch
  dispatch-step (issue_credential x) distinct room h =
      IsIssued-step x distinct room (issue_credential-IsIssued cfg now dids o x s t h)
  dispatch-step (revoke_credential id) distinct room h = revoke_credential-step id h
  dispatch-step (verify_credential hash) distinct room h = verify_credential-step hash h
  dispatch-step (update_credential_metadata id m) distinct room h =
      update_credential_metadata-step id m h
