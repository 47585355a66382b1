-- ===== src/Pallets/Runtime/Limits.antt =====
-- What calls are refused for good.
use academic_verification.Prelude.{ℕ, ◌<◌, ◌≤◌, ◌≡◌, refl, ap, arith, length}
use academic_verification.Pallets.Base.{AccountId, signed, Result, ok, err, u64_max, Config}
use academic_verification.Pallets.Did.{DidStorage}
use academic_verification.Pallets.Credential.{CredentialStorage, Issuance}
use academic_verification.Pallets.Credential.Calls.{dispatch, issue_credential}
use academic_verification.Pallets.Credential.Index.{store_credential-IsAdded}
use academic_verification.Pallets.Credential.Indexed.{HasNoCollision, HasNoCollision-HasDistinctIds}
use academic_verification.Pallets.Credential.Accepted.{issue_credential-IsIssued}
use academic_verification.Pallets.Runtime.{Runtime, credential, committed, apply, genesis, Reach}
use academic_verification.Pallets.Runtime.History.{Reach-IsSound, Reach-step, Reach_room}

-- A full list of the issuer refuses the issuance.
full_refused :
    (cfg : Config) (now : ℕ) (dids : DidStorage) (issuer : AccountId) (x : Issuance)
    (s : CredentialStorage) (m : Result CredentialStorage)
    → cfg.max_credentials_per_holder ≤ length (s.credentials_by_issuer issuer)
    → dispatch cfg now dids (signed issuer) (issue_credential x) s ≡ m
    → committed s m ≡ s
unfolding dispatch
full_refused cfg now dids issuer x s (err e) full h = refl
full_refused cfg now dids issuer x s (ok t) full h =
    let w = issue_credential-IsIssued cfg now dids (signed issuer) x s t h in
    let added = store_credential-IsAdded cfg _ s t w.stored in
    let same : issuer ≡ w.issuer = cc (w.signer) in
    let size = ap (λ a. length (s.credentials_by_issuer a)) same in
    absurd (omega (arith, added.issuer_room, full, size))

-- Once an institution has issued as many credentials as one holder may have, no call of it issues
-- another one, whatever was called in between, revocations included: the storage stays as it is.
pub issue_credential_exhausted :
    (cfg : Config) (s t : Runtime) (issuer : AccountId) (x : Issuance)
    → HasNoCollision cfg
    → Reach cfg genesis s
    → Reach cfg s t
    → t.credential.next_credential_id < u64_max
    → cfg.max_credentials_per_holder ≤ length (s.credential.credentials_by_issuer issuer)
    → (apply cfg (signed issuer) (credential (issue_credential x)) t).credential ≡ t.credential
unfolding apply
issue_credential_exhausted cfg s t issuer x injective before after room full =
    let v = Reach-IsSound cfg s injective before (Reach_room cfg s t after room) in
    let (_, a) = Reach-step cfg s t (HasNoCollision-HasDistinctIds cfg injective) v after room in
    let longer = a.evolves.issuers issuer in
    full_refused cfg t.block_number t.did issuer x t.credential _ (omega (arith, full, longer)) refl
