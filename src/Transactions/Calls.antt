-- ===== src/Transactions/Calls.antt =====
-- The classes `DIDTransactions`, `CredentialTransactions` and `ReputationTransactions` of
-- academic-verification-frontend/src/lib/blockchain/transactions.ts. A method builds one extrinsic and
-- submits it for the account.
use academic_verification.Prelude.{ℕ, String, Option, List}
use academic_verification.Transactions.Submit.{Registry, Event, Session, submit_transaction}
use academic_verification.Transactions.Extrinsic.{Extrinsic, KeyType, Submission}
use academic_verification.Credential.Issue.{ℤ, issue_credential}

unfoldable pub create_did : String → List ℕ → KeyType → Submission
create_did account public_key key_type = record {
  signer = account;
  extrinsic = Extrinsic.create_did public_key key_type;
}

unfoldable pub register_institution : String → String → Submission
register_institution account name = record {
  signer = account;
  extrinsic = Extrinsic.register_institution name;
}

unfoldable pub add_public_key : String → List ℕ → KeyType → Submission
add_public_key account public_key key_type = record {
  signer = account;
  extrinsic = Extrinsic.add_public_key public_key key_type;
}

unfoldable pub submit_issue_credential :
    (account holder credential_hash type metadata : String) → Option ℤ → Submission
unfolding issue_credential
submit_issue_credential account holder credential_hash type metadata expires_at = record {
  signer = account;
  extrinsic = Extrinsic.issue (issue_credential holder credential_hash type metadata expires_at);
}

unfoldable pub revoke_credential : String → String → Submission
revoke_credential account credential_id = record {
  signer = account;
  extrinsic = Extrinsic.revoke_credential credential_id;
}

unfoldable pub verify_credential : String → String → Submission
verify_credential account credential_hash = record {
  signer = account;
  extrinsic = Extrinsic.verify_credential credential_hash;
}

unfoldable pub endorse : (account endorsee endorsement_type comment : String) → ℕ → Submission
endorse account endorsee endorsement_type comment weight = record {
  signer = account;
  extrinsic = Extrinsic.endorse endorsee endorsement_type comment weight;
}

-- A submission followed by `submitTransaction`: `answers` is what the wallet of the signer and the
-- chain answer to an extrinsic, and `hash_of` its hash.
pub record Network : Type 0 where
  pub find_meta_error : Registry
  pub hash_of : Extrinsic → String
  pub signer_error : String → Option (Option String)
  pub answers : Submission → List Event

unfoldable pub run_submission : Network → Submission → Session
unfolding submit_transaction
run_submission n s =
    submit_transaction n.find_meta_error (n.hash_of s.extrinsic) (n.signer_error s.signer)
      (n.answers s)
