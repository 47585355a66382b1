-- ===== src/Pallets/Credential/Calls.antt =====
-- The calls of pallets/credential/src/lib.rs as data.
use academic_verification.Prelude.{ℕ}
use academic_verification.Pallets.Base.{H256, Bytes, Origin, Result, Config}
use academic_verification.Pallets.Did.{DidStorage}
use academic_verification.Pallets.Credential
use academic_verification.Pallets.Credential.{CredentialStorage, Issuance}

-- `Call`
pub data Call : Type 0 where
  issue_credential : Issuance → Call
  revoke_credential : (credential_id : H256) → Call
  verify_credential : (credential_hash : H256) → Call
  update_credential_metadata : (credential_id : H256) (new_metadata : Bytes) → Call

-- `dispatch` of a call
unfoldable pub dispatch :
    Config → ℕ → DidStorage → Origin → Call → CredentialStorage → Result CredentialStorage
unfolding Credential.issue_credential Credential.revoke_credential Credential.verify_credential
    Credential.update_credential_metadata
dispatch cfg now dids o (issue_credential x) s = Credential.issue_credential cfg now dids o x s
dispatch cfg now dids o (revoke_credential id) s = Credential.revoke_credential o id s
dispatch cfg now dids o (verify_credential h) s = Credential.verify_credential now o h s
dispatch cfg now dids o (update_credential_metadata id m) s =
    Credential.update_credential_metadata o id m s
