-- ===== src/Pallets/Credential/Admission.antt =====
-- When an issuance is admitted by pallets/credential.
use academic_verification.Prelude.{
  ℕ, ◌<◌, none, some, List, [], ◌∷◌, ◌++◌, ◌≡◌, refl, ◌↔◌, ◌⊎◌, inl, inr, arith, length,
}
use academic_verification.Pallets.Base.{
  AccountId, Origin, signed, Result, ok, err, Error, Config, try_push,
}
use academic_verification.Pallets.Did.{DidStorage}
use academic_verification.Pallets.Credential.{
  Credential, CredentialStorage, Issuance, new_credential, reference_of, store_credential,
  issue_credential,
}
use academic_verification.Pallets.Credential.Index.{store_credential-IsAdded}
use academic_verification.Pallets.Credential.Accepted.{MayIssue, issue_credential-IsIssued}

try_push_room :
    {A : Type 0} (bound : ℕ) (xs : List A) (x : A)
    → length xs < bound
    → try_push bound xs x ≡ some (xs ++ x ∷ [])
unfolding try_push
try_push_room bound xs x room = ground arith

Result-cases {ℓ} :
    {A : Type ℓ} (m : Result A) → ((a : A) × (m ≡ ok a)) ⊎ ((e : Error) × (m ≡ err e))
Result-cases (ok a) = inl (a, refl)
Result-cases (err e) = inr (e, refl)

store_credential_room :
    (cfg : Config) (c : Credential) (s : CredentialStorage) (e : Error)
    → length (s.credentials_by_holder c.holder) < cfg.max_credentials_per_holder
    → length (s.credentials_by_issuer c.issuer) < cfg.max_credentials_per_holder
    → store_credential cfg c s ≡ err e
    → ⊥
unfolding store_credential
store_credential_room cfg c s e held issued h =
    let bound = cfg.max_credentials_per_holder in
    let first = try_push_room bound (s.credentials_by_holder c.holder) (reference_of c) held in
    let second = try_push_room bound (s.credentials_by_issuer c.issuer) c.credential_id issued in
    let stored = rw (first, second) at h in cc

-- An issuance is admitted exactly if it is signed, by a registered and verified institution with an
-- active document, for a holder with an active document, its hash is not used yet, and there is room
-- for one more credential of the holder and of the issuer.
pub issue_credential-admitted :
    (cfg : Config) (now : ℕ) (dids : DidStorage) (o : Origin) (x : Issuance) (s : CredentialStorage)
    → ((t : CredentialStorage) × (issue_credential cfg now dids o x s ≡ ok t)) ↔ (
        (issuer : AccountId) × (o ≡ signed issuer)
        × MayIssue dids issuer x.holder
        × (s.credential_by_hash x.credential_hash ≡ none)
        × (length (s.credentials_by_holder x.holder) < cfg.max_credentials_per_holder)
        × (length (s.credentials_by_issuer issuer) < cfg.max_credentials_per_holder))
unfolding issue_credential
issue_credential-admitted cfg now dids o x s = (
  λ (t, h).
      let w = issue_credential-IsIssued cfg now dids o x s t h in
      let added = store_credential-IsAdded cfg _ s t w.stored in
      (w.issuer, w.signer, w.allowed, w.unused, added.holder_room, added.issuer_room),
  λ (issuer, signer, m, unused, held, issued).
      elim (Result-cases
        (store_credential cfg (new_credential cfg now s.next_credential_id issuer x) s)) [
          | inl (t, stored) ↦ (
            t,
            rw
                (
                  signer, m.registered, m.verified, m.issuer_known, m.issuer_active, m.holder_known,
                  m.holder_active, unused,
                )
                stored,
          )
          | inr (e, failed) ↦ absurd (store_credential_room cfg _ s e held issued failed)
        ],
)
