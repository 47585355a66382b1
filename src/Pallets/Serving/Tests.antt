-- ===== src/Pallets/Serving/Tests.antt =====
-- The life of one credential.
use academic_verification.Prelude.{false, none, some, ok, ◌≡◌, ◌≢◌, refl, ◌↔◌, arith, Among}
use academic_verification.Chain.{Api}
use academic_verification.Integration.Format.{format_credential_data, check_pallet_availability}
use academic_verification.Integration.Format as Format
use academic_verification.Queries.Real
use academic_verification.Integration.Types.{format_credential_type}
use academic_verification.Integration.Timestamp.{normalize_timestamp}
use academic_verification.Credential.Status.{has_expired}
use academic_verification.Credential.Verify.{
  initial, null_metadata, valid_credential, get_verification_status, verify_by_hash,
}
use academic_verification.Credential.Verify.Tests.{hex_to_string, parse_json}
use academic_verification.Pallets.Base as Base
use academic_verification.Pallets.Base.{H256, signed}
use academic_verification.Pallets.Credential.{
  Credential, reference_of, is_revoked, degree, new_credential,
}
use academic_verification.Pallets.Credential.Calls.{dispatch, issue_credential, revoke_credential}
use academic_verification.Pallets.Runtime.{Runtime, credential, apply, here}
use academic_verification.Pallets.Runtime.Invariant.{IsEntitled}
use academic_verification.Pallets.Serving.{raw_of}
use academic_verification.Pallets.Serving.Verdicts.{verdict_on, parsed}
use academic_verification.Pallets.Serving.Lifecycle.{
  verify_by_hash-IsEntitled, issue_credential-verify_by_hash, revoke_credential-verify_by_hash,
}
use academic_verification.Pallets.Tests.{
  written, cfg, cfg-HasNoCollision, ready, ready-Reach, diploma, issued, issued-Reach, to_hex,
  serving, serving-Serves,
}

abbrev node : Api
node = serving issued.credential

issued_room : issued.credential.next_credential_id ≡ 1
unfolding apply
issued_room = refl

issued_is_valid :
    verdict_on to_hex hex_to_string parse_json node 9 (initial "") "0xabcdef0123"
    ≡ ok (some valid_credential)
unfolding apply get_verification_status verify_by_hash Real.get_credential_by_hash
    Real.get_credential check_pallet_availability format_credential_data format_credential_type
    normalize_timestamp written
issued_is_valid = refl

diploma_accepted :
    dispatch cfg ready.block_number ready.did
      (signed "5Uni")
      (issue_credential diploma)
      ready.credential
    ≡ Base.ok issued.credential
unfolding apply written
diploma_accepted = refl

abbrev revoked : Runtime
revoked = apply cfg (signed "5Uni") (credential (revoke_credential "bbbbbbbb")) issued

abbrev diploma_stored : Credential
diploma_stored = new_credential cfg 0 0 "5Uni" diploma

stored_under_id : issued.credential.credentials "bbbbbbbb" ≡ some diploma_stored
unfolding apply written
stored_under_id = refl

revocation_accepted :
    dispatch cfg issued.block_number issued.did
      (signed "5Uni")
      (revoke_credential "bbbbbbbb")
      issued.credential
    ≡ Base.ok revoked.credential
unfolding apply written
revocation_accepted = refl

verify_by_hash-IsEntitled_example :
    (id : H256) × (c : Credential) × (issued.credential.credentials id ≡ some c)
    × (c.credential_hash ≡ "0xabcdef0123")
    × (is_revoked c.status ≡ false)
    × IsEntitled issued.did c
    × Among (reference_of c) (issued.credential.credentials_by_holder c.holder)
    × Among id (issued.credential.credentials_by_issuer c.issuer)
verify_by_hash-IsEntitled_example =
    verify_by_hash-IsEntitled to_hex hex_to_string parse_json node 9 (initial "") cfg
      cfg-HasNoCollision issued "0xabcdef0123" issued-Reach (omega (arith, issued_room))
      (serving-Serves issued.credential) (omega arith) issued_is_valid

issue_credential-verify_by_hash_example :
    (id : H256) × (d : Credential) × (issued.credential.credentials id ≡ some d)
    × (signed "5Uni" ≡ signed d.issuer)
    × (d.holder ≡ "5Stu")
    × (d.credential_type ≡ degree)
    × (d.expires_at ≡ none)
    × ((verdict_on to_hex hex_to_string parse_json node 9 (initial "") "0xabcdef0123"
          ≡ ok (some valid_credential))
        ↔ ((f : Format.Credential) × (format_credential_data node (raw_of to_hex d) ≡ ok f)
            × (is_revoked d.status ≡ false)
            × (has_expired 9 f.expires_at ≡ false)
            × (parsed to_hex hex_to_string parse_json node 9 (initial "") f.metadata
                ≢ null_metadata)))
issue_credential-verify_by_hash_example =
    issue_credential-verify_by_hash to_hex hex_to_string parse_json node 9 (initial "") cfg
      cfg-HasNoCollision ready issued (signed "5Uni") diploma issued.credential ready-Reach
      diploma_accepted here (omega (arith, issued_room)) (serving-Serves issued.credential)
      (omega arith)

revoked_room : revoked.credential.next_credential_id ≡ 1
unfolding apply written
revoked_room = refl

revoke_credential-verify_by_hash_example :
    verdict_on to_hex hex_to_string parse_json
      (serving revoked.credential)
      9
      (initial "")
      "0xabcdef0123"
    ≢ ok (some valid_credential)
revoke_credential-verify_by_hash_example =
    revoke_credential-verify_by_hash to_hex hex_to_string parse_json (serving revoked.credential) 9
      (initial "") cfg cfg-HasNoCollision issued revoked (signed "5Uni") "bbbbbbbb" diploma_stored
      revoked.credential issued-Reach stored_under_id revocation_accepted here
      (omega (arith, revoked_room)) (serving-Serves revoked.credential) (omega arith)
