-- ===== src/Pallets/Runtime/Tests.antt =====
-- The pallets at work.
use academic_verification.Prelude.{
  ◌<◌, String, none, some, [], ◌∷◌, ok, ◌≡◌, ◌≢◌, refl, ◌↔◌, arith, length,
}
use academic_verification.Integration.Types.{text, blockchain_type, format_credential_type}
use academic_verification.Pallets.Base as Base
use academic_verification.Pallets.Base.{H256, AccountId, signed, did, DidError}
use academic_verification.Pallets.Did.Calls as DidCalls
use academic_verification.Pallets.Did.Errors.{dispatch-authorized}
use academic_verification.Pallets.Credential
use academic_verification.Pallets.Credential.{
  Credential, CredentialStorage, CredentialType, doctorate,
}
use academic_verification.Pallets.Credential.Calls.{issue_credential, update_credential_metadata}
use academic_verification.Pallets.Credential.Accepted.{MayIssue}
use academic_verification.Pallets.Credential.Admission.{issue_credential-admitted}
use academic_verification.Pallets.Credential.Changed.{Lasts}
use academic_verification.Pallets.Reputation.{
  professional, write_endorsement, calculate_reputation_score,
}
use academic_verification.Pallets.Reputation.Calls as ReputationCalls
use academic_verification.Pallets.Reputation.Fair.{IsFair}
use academic_verification.Pallets.Runtime.{
  Runtime, credential, reputation, apply, genesis, here, call,
}
use academic_verification.Pallets.Runtime.Invariant.{IsSound}
use academic_verification.Pallets.Runtime.History.{Reach-IsSound, Reach-Lasts}
use academic_verification.Pallets.Runtime.Limits.{issue_credential_exhausted}
use academic_verification.Pallets.Runtime.Scores.{
  Reach-IsFair, claim_verifications, claim_verifications_score,
}
use academic_verification.Pallets.Serving.{type_name}
use academic_verification.Pallets.Serving.Types.{blockchain_type-format}
use academic_verification.Pallets.Tests.{
  written, cfg, cfg-HasNoCollision, ready, diploma, issued, issued-Reach,
}

issued_counter : issued.credential.next_credential_id ≡ 1
unfolding apply
issued_counter = refl

issued-IsSound : IsSound cfg issued
issued-IsSound =
    Reach-IsSound cfg issued cfg-HasNoCollision issued-Reach (omega (arith, issued_counter))

Reach-IsSound_example : IsSound cfg issued
Reach-IsSound_example =
    Reach-IsSound cfg issued cfg-HasNoCollision issued-Reach (omega (arith, issued_counter))

dispatch-authorized_example :
    DidCalls.dispatch cfg 0 (signed "5Uni") DidCalls.deactivate_did issued.did
    ≢ Base.err (did DidError.not_authorized)
unfolding apply
dispatch-authorized_example =
    dispatch-authorized cfg 0 (signed "5Uni") DidCalls.deactivate_did issued.did issued-IsSound.dids

-- A change of the metadata by the issuer.
abbrev updated : Runtime
updated =
    apply cfg (signed "5Uni") (credential (update_credential_metadata "bbbbbbbb" (7 ∷ []))) issued

abbrev stored : Credential
stored = Credential.new_credential cfg 0 0 "5Uni" diploma

issued_stored : issued.credential.credentials "bbbbbbbb" ≡ some stored
unfolding apply written
issued_stored = refl

updated_counter : updated.credential.next_credential_id ≡ 1
unfolding apply written
updated_counter = refl

Reach-Lasts_example :
    (d : Credential) × (updated.credential.credentials "bbbbbbbb" ≡ some d)
    × Lasts stored d
    × (updated.credential.credential_by_hash "0xabcdef0123" ≡ some "bbbbbbbb")
Reach-Lasts_example =
    Reach-Lasts cfg issued updated "bbbbbbbb" stored cfg-HasNoCollision issued-Reach
      (call here (signed "5Uni") (credential (update_credential_metadata "bbbbbbbb" (7 ∷ []))))
      (omega (arith, updated_counter)) issued_stored

issue_credential-admitted_example :
    ((t : CredentialStorage) × (Credential.issue_credential cfg 0 ready.did
          (signed "5Uni")
          diploma
          ready.credential
        ≡ Base.ok t))
    ↔ ((issuer : AccountId) × (signed "5Uni" ≡ signed issuer)
        × MayIssue ready.did issuer "5Stu"
        × (ready.credential.credential_by_hash "0xabcdef0123" ≡ none)
        × (length (ready.credential.credentials_by_holder "5Stu") < 1)
        × (length (ready.credential.credentials_by_issuer issuer) < 1))
issue_credential-admitted_example =
    issue_credential-admitted cfg 0 ready.did (signed "5Uni") diploma ready.credential

issued_full : length (issued.credential.credentials_by_issuer "5Uni") ≡ 1
unfolding apply
issued_full = refl

issue_credential_exhausted_example :
    (apply cfg
      (signed "5Uni")
      (credential (issue_credential (record diploma { credential_hash = "0xffffffffff" })))
      updated).credential
    ≡ updated.credential
issue_credential_exhausted_example =
    issue_credential_exhausted cfg issued updated "5Uni"
      (record diploma { credential_hash = "0xffffffffff" }) cfg-HasNoCollision issued-Reach
      (call here (signed "5Uni") (credential (update_credential_metadata "bbbbbbbb" (7 ∷ []))))
      (omega (arith, updated_counter)) (omega (arith, issued_full))

abbrev endorsed : Runtime
endorsed =
    apply cfg (signed "5Stu") (reputation (ReputationCalls.endorse "5Uni" professional [] 5)) issued

endorsed_score : (endorsed.reputation.reputation_scores "5Uni").total_score ≡ 20
unfolding apply write_endorsement calculate_reputation_score
endorsed_score = refl

Reach-IsFair_example : IsFair endorsed.reputation
Reach-IsFair_example = Reach-IsFair cfg endorsed (omega arith) (
    call issued-Reach (signed "5Stu")
      (reputation (ReputationCalls.endorse "5Uni" professional [] 5)))

claim_verifications_score_example :
    ((claim_verifications cfg "5Eve" 200 genesis).reputation.reputation_scores "5Eve").total_score
    ≡ 1000
claim_verifications_score_example = claim_verifications_score cfg "5Eve" 200 genesis (omega arith)

blockchain_type-format_example :
    ((z : CredentialType) × (blockchain_type "PhD" ≡ type_name z))
    × ((shown : String) × (format_credential_type (text (type_name doctorate)) ≡ ok shown)
        × (blockchain_type shown ≡ type_name doctorate))
blockchain_type-format_example = blockchain_type-format "PhD" doctorate
