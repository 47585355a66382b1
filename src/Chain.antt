-- ===== src/Chain.antt =====
-- The chain's storage as the frontend reads it: one function for each query of
-- `api.query.did`, `api.query.credential` and `api.query.reputation`. The client library and the
-- node behind it are parameters: a query is settled with an error, with an empty value
-- (`isEmpty`), or with the value that `toJSON` gives. One `Api` value is what the chain answers
-- while one operation of the frontend runs.
use academic_verification.Prelude.{ℕ, String, Bool, Option, List, Settled}
use academic_verification.Hex.{Value}
use academic_verification.Integration.Types.{RawType}

pub record PublicKeyData : Type 0 where
  pub key_id : Option String
  pub key_type : Option String
  pub public_key : Option String

-- `didDocuments`
pub record DidDocument : Type 0 where
  pub controller : String
  pub public_keys : Option (List PublicKeyData)
  pub created_at : Option ℕ
  pub updated_at : Option ℕ
  pub active : Bool

-- `institutions`; a missing `verified` is `none`
pub record InstitutionData : Type 0 where
  pub name : Value
  pub did : Option String
  pub verified : Option Bool
  pub registered_at : Option ℕ

-- `credentials`
pub record RawCredential : Type 0 where
  pub credential_id : String
  pub holder : String
  pub issuer : String
  pub credential_hash : String
  pub credential_type : RawType
  pub metadata : Option String
  pub issued_at : Option ℕ
  pub expires_at : Option ℕ
  pub status : String

-- an item of `credentialsByHolder`
pub record CredentialRef : Type 0 where
  pub credential_id : String

-- `reputationScores`
pub record ReputationScore : Type 0 where
  pub credentials_issued : ℕ
  pub credentials_verified : ℕ
  pub endorsements_received : ℕ
  pub endorsements_given : ℕ
  pub total_score : ℕ

pub record Endorsement : Type 0 where
  pub endorser : String
  pub endorsee : String
  pub weight : ℕ

pub record Api : Type 0 where
  -- `api.query[name] !== undefined`
  pub has_pallet : String → Settled Bool
  pub did_documents : String → Settled (Option DidDocument)
  pub institutions : String → Settled (Option InstitutionData)
  pub institution_entries : Settled (List (String × Option InstitutionData))
  pub credentials : String → Settled (Option RawCredential)
  pub credential_by_hash : String → Settled (Option String)
  pub credentials_by_holder : String → Settled (Option (List CredentialRef))
  pub credentials_by_issuer : String → Settled (Option (List String))
  pub reputation_scores : String → Settled (Option ReputationScore)
  pub endorsements_received : String → Settled (Option (List Endorsement))
  pub endorsements_given : String → Settled (Option (List Endorsement))
  -- `Buffer.from(…).toString('utf-8')`
  pub decode_metadata : String → Settled String
  -- `Date.now()`
  pub now : ℕ
