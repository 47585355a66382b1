-- ===== src/Pallets/Reputation/Calls.antt =====
-- The calls of pallets/reputation/src/lib.rs as data.
use academic_verification.Prelude.{ℕ}
use academic_verification.Pallets.Base.{AccountId, Bytes, Origin, Result, Config}
use academic_verification.Pallets.Did.{DidStorage}
use academic_verification.Pallets.Reputation
use academic_verification.Pallets.Reputation.{ReputationStorage, EndorsementType}

-- `Call`
pub data Call : Type 0 where
  endorse : (endorsee : AccountId) → EndorsementType → (comment : Bytes) (weight : ℕ) → Call
  remove_endorsement : (endorsee : AccountId) → Call
  record_credential_issuance : (issuer : AccountId) → Call
  record_credential_verification : Call
  update_reputation_score : (account : AccountId) → Call

-- `dispatch` of a call
unfoldable pub dispatch :
    Config → ℕ → DidStorage → Origin → Call → ReputationStorage → Result ReputationStorage
unfolding Reputation.endorse Reputation.remove_endorsement Reputation.record_credential_issuance
    Reputation.record_credential_verification Reputation.update_reputation_score
dispatch cfg now dids o (endorse e t c w) s = Reputation.endorse cfg now dids o e t c w s
dispatch cfg now dids o (remove_endorsement e) s = Reputation.remove_endorsement o e s
dispatch cfg now dids o (record_credential_issuance i) s =
    Reputation.record_credential_issuance o i s
dispatch cfg now dids o record_credential_verification s =
    Reputation.record_credential_verification o s
dispatch cfg now dids o (update_reputation_score a) s = Reputation.update_reputation_score o a s
