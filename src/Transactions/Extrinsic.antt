-- ===== src/Transactions/Extrinsic.antt =====
-- The extrinsics of the three pallets that academic-verification-frontend/src/lib/blockchain/transactions.ts
-- builds, each by its call and its arguments.
use academic_verification.Prelude.{ℕ, String, List}
use academic_verification.Credential.Issue.{IssueCredential}

pub data KeyType : Type 0 where
  ed25519 sr25519 ecdsa : KeyType

-- `this.api.tx.….…(…)`
pub data Extrinsic : Type 0 where
  create_did : (public_key : List ℕ) (key_type : KeyType) → Extrinsic
  register_institution : (name : String) → Extrinsic
  add_public_key : (public_key : List ℕ) (key_type : KeyType) → Extrinsic
  issue : IssueCredential → Extrinsic
  revoke_credential : (credential_id : String) → Extrinsic
  verify_credential : (credential_hash : String) → Extrinsic
  endorse : (endorsee endorsement_type comment : String) (weight : ℕ) → Extrinsic

-- What is handed to `submitTransaction`.
pub record Submission : Type 0 where
  pub signer : String
  pub extrinsic : Extrinsic
