-- ===== src/Pallets/Runtime.antt =====
-- The three pallets of runtime/src/lib.rs together: a transaction is a call of one of them by an
-- origin, and a block follows another one. A call that fails leaves the storage as it was, since the
-- framework runs each call in a transaction of its own.
pub mod Invariant
pub mod Limits
mod Tests
pub mod Scores
pub mod History
use academic_verification.Prelude.{ℕ, suc, none, false, []}
use academic_verification.Pallets.Base.{Origin, Result, ok, err, Config, put, try_push}
use academic_verification.Pallets.Did
use academic_verification.Pallets.Did.{DidStorage}
use academic_verification.Pallets.Did.Calls as DidCalls
use academic_verification.Pallets.Credential.{
  CredentialStorage, generate_credential_id, store_credential,
}
use academic_verification.Pallets.Credential.Calls as CredentialCalls
use academic_verification.Pallets.Reputation.{ReputationStorage, default_score}
use academic_verification.Pallets.Reputation.Calls as ReputationCalls

pub record Runtime : Type 0 where
  pub block_number : ℕ
  pub did : DidStorage
  pub credential : CredentialStorage
  pub reputation : ReputationStorage

-- `RuntimeCall`, of the three pallets
pub data RuntimeCall : Type 0 where
  did : DidCalls.Call → RuntimeCall
  credential : CredentialCalls.Call → RuntimeCall
  reputation : ReputationCalls.Call → RuntimeCall

-- The storage that a result leaves.
abbrev pub committed {ℓ} : {S : Type ℓ} → S → Result S → S
committed s (ok t) = t
committed s (err e) = s

unfoldable pub apply : Config → Origin → RuntimeCall → Runtime → Runtime
unfolding DidCalls.dispatch CredentialCalls.dispatch ReputationCalls.dispatch put try_push
    Did.deposit_event generate_credential_id store_credential
apply cfg o (RuntimeCall.did c) r = record r {
  did = committed r.did (DidCalls.dispatch cfg r.block_number o c r.did);
}
apply cfg o (RuntimeCall.credential c) r = record r {
  credential =
      committed r.credential (CredentialCalls.dispatch cfg r.block_number r.did o c r.credential);
}
apply cfg o (RuntimeCall.reputation c) r = record r {
  reputation =
      committed r.reputation (ReputationCalls.dispatch cfg r.block_number r.did o c r.reputation);
}

-- The storage of a chain without a transaction yet.
abbrev pub genesis : Runtime
genesis = record {
  block_number = 0;
  did = record { did_documents = λ a. none; institutions = λ a. none; events = [] };
  credential = record {
    credentials = λ j. none;
    credentials_by_holder = λ a. [];
    credentials_by_issuer = λ a. [];
    credential_by_hash = λ h. none;
    next_credential_id = 0;
    events = [];
  };
  reputation = record {
    reputation_scores = λ a. default_score;
    endorsements_given = λ a. [];
    endorsements_received = λ a. [];
    has_endorsed = λ a b. false;
    events = [];
  };
}

-- The runtimes that calls and blocks lead to, from another one.
pub data Reach (cfg : Config) (r : Runtime) : Runtime → Type 0 where
  here : Reach cfg r r
  call :
      {s : Runtime} → Reach cfg r s → (o : Origin) (c : RuntimeCall) → Reach cfg r (apply cfg o c s)
  block :
      {s : Runtime} → Reach cfg r s → Reach cfg r (record s { block_number = suc s.block_number })
