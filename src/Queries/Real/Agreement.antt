-- ===== src/Queries/Real/Agreement.antt =====
-- The two query layers against each other: on a node that has the pallets, a method of
-- realQueries.ts gives the formatted result of the method of queries.ts.
use academic_verification.Prelude.{
  String, true, Option, none, some, List, [], map, somes, or_else, get_or, ◌≡◌, refl, ap, ◌∙◌,
  fun_ext, somes_compose, Settled-cases, inl, inr,
}
use academic_verification.Chain.{Api, RawCredential, CredentialRef}
use academic_verification.Integration.Format.{Credential, check_pallet_availability}
use academic_verification.Queries.Plain
use academic_verification.Queries.Plain.{zero_score, verified_true}
use academic_verification.Queries.Real
use academic_verification.Queries.Real.{map_some, with_keys, formatted, by_id}

-- The node has the three pallets.
pub record HasPallets (api : Api) : Type 0 where
  pub did : check_pallet_availability api "did" ≡ true
  pub credential : check_pallet_availability api "credential" ≡ true
  pub reputation : check_pallet_availability api "reputation" ≡ true

-- A credential as the interface shows it; one that cannot be formatted is dropped.
abbrev pub shown : Api → Option RawCredential → Option Credential
shown api o = or_else (formatted api o) none

module _ (api : Api) (h : HasPallets api) where
  get_credential_agree :
      (id : String) → Real.get_credential api id ≡ shown api (Plain.get_credential api id)
  unfolding Real.get_credential Plain.get_credential
  get_credential_agree id = elim (Settled-cases (api.credentials id)) [
    | inl (o, e) ↦ rw (h.credential, e)
    | inr (m, e) ↦ rw (h.credential, e)
  ]

  by_id_agree : (o : Option String) → by_id api o ≡ shown api (Plain.by_id api o)
  by_id_agree none = refl
  by_id_agree (some id) = get_credential_agree id

  get_credential_by_hash_agree :
      (hash : String)
      → Real.get_credential_by_hash api hash ≡ shown api (Plain.get_credential_by_hash api hash)
  unfolding Real.get_credential_by_hash Plain.get_credential_by_hash
  get_credential_by_hash_agree hash = elim (Settled-cases (api.credential_by_hash hash)) [
    | inl (o, e) ↦ rw (h.credential, e) (by_id_agree o)
    | inr (m, e) ↦ rw (h.credential, e)
  ]

  -- Formatting the found records one by one, or all of them afterwards, is the same.
  somes_agree :
      {A : Type 0} (f : A → String) (xs : List A)
      → somes (map (λ x. Real.get_credential api (f x)) xs)
        ≡ somes
            (map (λ c. shown api (some c)) (somes (map (λ x. Plain.get_credential api (f x)) xs)))
  somes_agree f xs =
      ap (λ g. somes (map g xs)) (fun_ext (λ x. get_credential_agree (f x)))
      ∙ somes_compose (λ x. Plain.get_credential api (f x)) (shown api) refl xs

  by_holder_agree :
      (address : String)
      → Real.get_credentials_by_holder api address
        ≡ somes (map (λ c. shown api (some c)) (Plain.get_credentials_by_holder api address))
  unfolding Real.get_credentials_by_holder Plain.get_credentials_by_holder
  by_holder_agree address = elim (Settled-cases (api.credentials_by_holder address)) [
    | inl (o, e) ↦
        rw (h.credential, e) (somes_agree (λ (r : CredentialRef). r.credential_id) (get_or o []))
    | inr (m, e) ↦ rw (h.credential, e)
  ]

  by_issuer_agree :
      (address : String)
      → Real.get_credentials_by_issuer api address
        ≡ somes (map (λ c. shown api (some c)) (Plain.get_credentials_by_issuer api address))
  unfolding Real.get_credentials_by_issuer Plain.get_credentials_by_issuer
  by_issuer_agree address = elim (Settled-cases (api.credentials_by_issuer address)) [
    | inl (o, e) ↦ rw (h.credential, e) (somes_agree (λ id. id) (get_or o []))
    | inr (m, e) ↦ rw (h.credential, e)
  ]

  -- On a node with the three pallets, each credential method of realQueries.ts gives what the method
  -- of queries.ts finds, formatted, without the records that cannot be formatted.
  pub credential_queries_agree :
      (key : String)
      → (Real.get_credential api key ≡ shown api (Plain.get_credential api key))
        × (Real.get_credential_by_hash api key ≡ shown api (Plain.get_credential_by_hash api key))
        × (Real.get_credentials_by_holder api key
            ≡ somes (map (λ c. shown api (some c)) (Plain.get_credentials_by_holder api key)))
        × (Real.get_credentials_by_issuer api key
            ≡ somes (map (λ c. shown api (some c)) (Plain.get_credentials_by_issuer api key)))
  credential_queries_agree key = (
    get_credential_agree key,
    get_credential_by_hash_agree key,
    by_holder_agree key,
    by_issuer_agree key,
  )

  -- On such a node the DID and reputation methods of the two layers agree: a missing list of keys
  -- becomes an empty one, and a failed query of the score becomes the score of zeros.
  pub did_queries_agree :
      (address : String)
      → (Real.get_did api address ≡ map_some with_keys (Plain.get_did api address))
        × (Real.get_institution api address ≡ Plain.get_institution api address)
        × (Real.is_verified_institution api address ≡ Plain.is_verified_institution api address)
        × (Real.get_reputation_score api address
            ≡ get_or (Plain.get_reputation_score api address) zero_score)
  unfolding Real.get_did Plain.get_did Real.get_institution Plain.get_institution
      Real.get_reputation_score Plain.get_reputation_score Real.is_verified_institution
      Plain.is_verified_institution
  did_queries_agree address =
      (get_did_agree, institution_agree, ap verified_true institution_agree, score_agree)
    where
      get_did_agree : Real.get_did api address ≡ map_some with_keys (Plain.get_did api address)
      get_did_agree = elim (Settled-cases (api.did_documents address)) [
        | inl (o, e) ↦ rw (h.did, e)
        | inr (m, e) ↦ rw (h.did, e)
      ]

      institution_agree : Real.get_institution api address ≡ Plain.get_institution api address
      institution_agree = elim (Settled-cases (api.institutions address)) [
        | inl (o, e) ↦ rw (h.did, e)
        | inr (m, e) ↦ rw (h.did, e)
      ]

      score_agree :
          Real.get_reputation_score api address
          ≡ get_or (Plain.get_reputation_score api address) zero_score
      score_agree = elim (Settled-cases (api.reputation_scores address)) [
        | inl (o, e) ↦ rw (h.reputation, e)
        | inr (m, e) ↦ rw (h.reputation, e)
      ]
