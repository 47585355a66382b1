-- ===== src/Pallets/Did/Errors.antt =====
-- The errors of pallets/did that its storage rules out.
use academic_verification.Prelude.{ℕ, true, ◌==◌, ◌≡◌, ◌≢◌, arith, eq_iff, inl, inr, Option-cases}
use academic_verification.Pallets.Base.{
  AccountId, Origin, root, unsigned, signed, Result, err, did, DidError, Config, ok_or, ensure,
  did_not_found, ◌>>=◌, ◌>>◌,
}
use academic_verification.Pallets.Did
use academic_verification.Pallets.Did.{
  KeyType, PublicKeyEntry, DidDocument, DidStorage, has_key, is_empty,
}
use academic_verification.Pallets.Did.Calls.{
  Call, dispatch, create_did, add_public_key, remove_public_key, deactivate_did, reactivate_did,
  register_institution, verify_institution, revoke_institution,
}
use academic_verification.Pallets.Did.Laws.{IsSound}

-- A call that reads the document of the signer passes the check of the controller.
reads_own :
    {A : Type 0} (cfg : Config) (now : ℕ) (a : AccountId) (s : DidStorage)
    (f : DidDocument → Result A)
    → IsSound cfg now s
    → ((d : DidDocument) → f d ≢ err (did DidError.not_authorized))
    → (ok_or (s.did_documents a) (did did_not_found) >>= λ d.
        ensure (d.controller == a) (did DidError.not_authorized) >> f d)
      ≢ err (did DidError.not_authorized)
reads_own cfg now a s f v rest h = elim (Option-cases (s.did_documents a)) [
  | inl missing ↦ let e = rw missing at h in cc
  | inr (d, stored) ↦
      let own : (d.controller == a) ≡ true =
        (eq_iff d.controller a).1 (v.documents a d stored).owned in
      let e = rw stored at h in rest d (rw own at e)
]

module _ (cfg : Config) (now : ℕ) (a : AccountId) (s : DidStorage) (v : IsSound cfg now s) where
  signed_authorized :
      (c : Call) → dispatch cfg now (signed a) c s ≢ err (did DidError.not_authorized)
  unfolding dispatch Did.create_did Did.add_public_key Did.remove_public_key Did.deactivate_did
      Did.reactivate_did Did.register_institution Did.verify_institution Did.revoke_institution
  signed_authorized (create_did k y) h = ground arith
  signed_authorized (add_public_key k y) h = reads_own cfg now a s _ v (λ d e. ground arith) h
  signed_authorized (remove_public_key k) h = reads_own cfg now a s _ v (λ d e. ground arith) h
  signed_authorized deactivate_did h = reads_own cfg now a s _ v (λ d e. cc) h
  signed_authorized reactivate_did h = reads_own cfg now a s _ v (λ d e. cc) h
  signed_authorized (register_institution n) h = ground arith
  signed_authorized (verify_institution d) h = cc
  signed_authorized (revoke_institution d) h = cc

-- Nobody is told that they are not authorized: a document stands under its controller.
pub dispatch-authorized :
    (cfg : Config) (now : ℕ) (o : Origin) (c : Call) (s : DidStorage)
    → IsSound cfg now s
    → dispatch cfg now o c s ≢ err (did DidError.not_authorized)
unfolding dispatch Did.create_did Did.add_public_key Did.remove_public_key Did.deactivate_did
    Did.reactivate_did Did.register_institution Did.verify_institution Did.revoke_institution
dispatch-authorized cfg now (signed a) c s v h = signed_authorized cfg now a s v c h
dispatch-authorized cfg now root c s v h = ground arith
dispatch-authorized cfg now unsigned c s v h = ground arith
