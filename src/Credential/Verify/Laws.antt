-- ===== src/Credential/Verify/Laws.antt =====
-- What the verification page shows, against what is stored on the chain.
use Prim.Native.String.{count}
use academic_verification.Prelude.{
  ℕ, ◌<◌, String, false, Option, none, some, Settled, ok, ◌≡◌, ◌≢◌, refl, ◌↔◌, inl, inr, arith,
  Option-cases, sym, ap, ◌∙◌, eq_iff, ok-injective, some-injective,
}
use academic_verification.Chain.{Api}
use academic_verification.Integration.Format.{Credential}
use academic_verification.Queries.Real
use academic_verification.Queries.Real.Laws.{IsStored, get_credential_by_hash-IsStored}
use academic_verification.Credential.Status
use academic_verification.Credential.Status.{has_expired, get_status}
use academic_verification.Credential.Verify.{
  VerifyState, VerificationStatus, Metadata, null_metadata, fields, credential_not_found,
  credential_revoked, credential_expired, valid_credential, admit, begin, finish, conclude, present,
  show_result, status_of, get_verification_status, parse_metadata, verify_by_hash,
}

-- What the page says of a credential with that badge.
abbrev pub title : Status.Status → VerificationStatus
title Status.revoked = credential_revoked
title Status.expired = credential_expired
title Status.active = valid_credential

-- What the page shows of a verification that found `c`, whose parsed metadata are `m`.
abbrev pub verdict : ℕ → Credential → Metadata → VerificationStatus
verdict now c null_metadata = credential_not_found
verdict now c (fields d f) = title (get_status now c)

module _ (hex_to_string : String → Settled String) (parse_json : String → Settled Metadata) where
  status_present :
      (now : ℕ) (c : Credential) (name : Option String) (m : Metadata) (s : VerifyState)
      → get_verification_status now (show_result (present c name m) s).verification_result
        ≡ ok (some (verdict now c m))
  unfolding get_verification_status show_result present status_of get_status
  status_present now c name null_metadata s = refl
  status_present now c name (fields d f) s = ground arith

  admitted : (api : Api) (h : String) → 9 < count h → admit (some api) h ≡ ok api
  unfolding admit
  admitted api h k =
      let long : h ≡ "" → count h ≡ 0 = λ e. ap count e in ground (arith, eq_iff h "", long)

  verify_found :
      (api : Api) (h : String) (c : Credential) (s : VerifyState) (now : ℕ)
      → 9 < count h
      → Real.get_credential_by_hash api h ≡ some c
      → get_verification_status now
          (verify_by_hash hex_to_string parse_json (some api) h s).verification_result
        ≡ ok (some (verdict now c (parse_metadata hex_to_string parse_json c.metadata)))
  unfolding verify_by_hash finish conclude begin
  verify_found api h c s now k e = rw (admitted api h k, e) (status_present now c _ _ _)

  verify_missing :
      (api : Api) (h : String) (s : VerifyState) (now : ℕ)
      → 9 < count h
      → Real.get_credential_by_hash api h ≡ none
      → get_verification_status now
          (verify_by_hash hex_to_string parse_json (some api) h s).verification_result
        ≡ ok (some credential_not_found)
  unfolding verify_by_hash finish conclude begin get_verification_status
  verify_missing api h s now k e = rw (admitted api h k, e) refl

  verdict-valid :
      (now : ℕ) (c : Credential) (m : Metadata)
      → (verdict now c m ≡ valid_credential)
        ↔ ((c.revoked ≡ false) × (has_expired now c.expires_at ≡ false) × (m ≢ null_metadata))
  unfolding get_status
  verdict-valid now c null_metadata = ground arith
  verdict-valid now c (fields d f) = ground arith

  -- A verification by a hash of at least ten characters, on a connected page, ends with the verdict
  -- that the credential is valid exactly if the chain keeps an id for the hash and a record under
  -- the id that can be formatted, the record is not revoked, it has not expired, and its metadata
  -- are not the JSON text `null`.
  pub verify_by_hash-valid :
      (api : Api) (h : String) (s : VerifyState) (now : ℕ)
      → 9 < count h
      → (get_verification_status now
            (verify_by_hash hex_to_string parse_json (some api) h s).verification_result
          ≡ ok (some valid_credential))
        ↔ ((id : String) × (c : Credential) × (api.credential_by_hash h ≡ ok (some id))
            × IsStored api id c
            × (c.revoked ≡ false)
            × (has_expired now c.expires_at ≡ false)
            × (parse_metadata hex_to_string parse_json c.metadata ≢ null_metadata))
  verify_by_hash-valid api h s now k = (
    λ e. elim (Option-cases (Real.get_credential_by_hash api h)) [
      | inl missing ↦ let never = sym (verify_missing api h s now k missing) ∙ e in cc
      | inr (c, found) ↦
          let shown =
            some-injective _ _ (ok-injective _ _ (sym (verify_found api h c s now k found) ∙ e)) in
          let (a, b, d) = (verdict-valid now c _).0 shown in
          let (id, kept, stored) = (get_credential_by_hash-IsStored api h c).0 found in
          (id, c, kept, stored, a, b, d)
    ],
    λ (id, c, kept, stored, a, b, d).
        let found = (get_credential_by_hash-IsStored api h c).1 (id, kept, stored) in
        verify_found api h c s now k found
        ∙ ap (λ v. ok (some v)) ((verdict-valid now c _).1 (a, b, d)),
  )
