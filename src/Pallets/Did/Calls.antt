-- ===== src/Pallets/Did/Calls.antt =====
-- The calls of pallets/did/src/lib.rs as data.
use academic_verification.Prelude.{ℕ}
use academic_verification.Pallets.Base.{AccountId, H256, Bytes, Origin, Result, Config}
use academic_verification.Pallets.Did
use academic_verification.Pallets.Did.{KeyType, DidStorage}

-- `Call`
pub data Call : Type 0 where
  create_did : (public_key : Bytes) → KeyType → Call
  add_public_key : (public_key : Bytes) → KeyType → Call
  remove_public_key : (key_id : H256) → Call
  deactivate_did reactivate_did : Call
  register_institution : (name : Bytes) → Call
  verify_institution revoke_institution : (institution_did : AccountId) → Call

-- `dispatch` of a call
unfoldable pub dispatch : Config → ℕ → Origin → Call → DidStorage → Result DidStorage
unfolding Did.create_did Did.add_public_key Did.remove_public_key Did.deactivate_did
    Did.reactivate_did Did.register_institution Did.verify_institution Did.revoke_institution
dispatch cfg now o (create_did k t) s = Did.create_did cfg now o k t s
dispatch cfg now o (add_public_key k t) s = Did.add_public_key cfg now o k t s
dispatch cfg now o (remove_public_key k) s = Did.remove_public_key cfg now o k s
dispatch cfg now o deactivate_did s = Did.deactivate_did cfg now o s
dispatch cfg now o reactivate_did s = Did.reactivate_did cfg now o s
dispatch cfg now o (register_institution n) s = Did.register_institution cfg now o n s
dispatch cfg now o (verify_institution d) s = Did.verify_institution o d s
dispatch cfg now o (revoke_institution d) s = Did.revoke_institution o d s
