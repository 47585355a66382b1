-- ===== src/Queries/Real/Laws.antt =====
-- What the queries find.
use academic_verification.Prelude.{
  String, true, Option, none, some, List, [], map, somes, Settled, ok, is_some, get_or, ◌≡◌, refl,
  ◌↔◌, Among, inl, inr, or_else-eq-some, or_else-Among, somes-Among, Among-somes, subst, sym,
  >>=-eq-ok, ok-injective, some-injective, Bool-cases, ap, ◌∙◌,
}
use academic_verification.Queries.Plain.{verified_true}
use academic_verification.Chain.{InstitutionData, Api, RawCredential, CredentialRef}
use academic_verification.Integration.Format.{
  Credential, format_credential_data, check_pallet_availability,
}
use academic_verification.Queries.Real.{
  guarded, formatted, by_id, get_institution, is_institution, is_verified_institution,
  get_credential, get_credential_by_hash, get_credentials_by_holder, get_credentials_by_issuer,
  get_user_data, get_institution_data,
}

-- How a credential stands on the chain: its record is stored under the id, and can be formatted.
pub record IsStored (api : Api) (id : String) (c : Credential) : Type 0 where
  pub raw : RawCredential
  pub available : check_pallet_availability api "credential" ≡ true
  pub stored : api.credentials id ≡ ok (some raw)
  pub formatted : format_credential_data api raw ≡ ok c

module _ (api : Api) where
  guarded-eq-some :
      {A : Type 0} (pallet : String) (m : Settled (Option A)) (a : A)
      → guarded api pallet none m ≡ some a
      → (check_pallet_availability api pallet ≡ true) × (m ≡ ok (some a))
  guarded-eq-some pallet m a e = elim (Bool-cases (check_pallet_availability api pallet)) [
    | inl there ↦ (there, or_else-eq-some m a (rw there at e))
    | inr absent ↦ let never = rw absent at e in cc
  ]

  pub get_credential-IsStored :
      (id : String) (c : Credential) → get_credential api id ≡ some c → IsStored api id c
  unfolding get_credential
  get_credential-IsStored id c e =
      let (there, settled) = guarded-eq-some "credential" _ c e in
      let (found, stored, shown) =
        >>=-eq-ok (api.credentials id) (formatted api) (some c) settled in
      go found there stored shown
    where
      go :
          (found : Option RawCredential)
          → check_pallet_availability api "credential" ≡ true
          → api.credentials id ≡ ok found
          → formatted api found ≡ ok (some c)
          → IsStored api id c
      go none there stored shown = cc
      go (some raw) there stored shown =
          let (c', same, last) = >>=-eq-ok (format_credential_data api raw) _ (some c) shown in
          record {
            raw = raw;
            available = there;
            stored = stored;
            formatted = same ∙ ap ok (some-injective c' c (ok-injective _ _ last));
          }

  pub get_credential_of_IsStored :
      (id : String) (c : Credential) → IsStored api id c → get_credential api id ≡ some c
  unfolding get_credential
  get_credential_of_IsStored id c s = rw (s.available, s.stored, s.formatted) refl

  -- A lookup by hash finds exactly the credential that is stored under the id that the chain keeps
  -- for the hash, formatted; and `verifyCredentialExists` holds of the hash exactly if it finds one.
  pub get_credential_by_hash-IsStored :
      (hash : String) (c : Credential)
      → (get_credential_by_hash api hash ≡ some c)
        ↔ ((id : String) × (api.credential_by_hash hash ≡ ok (some id)) × IsStored api id c)
  unfolding get_credential_by_hash
  get_credential_by_hash-IsStored hash c = (
    λ e.
        let (there, settled) = guarded-eq-some "credential" _ c e in
        let (o, kept, found) = >>=-eq-ok (api.credential_by_hash hash) _ (some c) settled in
        go o kept (ok-injective _ _ found),
    λ (id, kept, s). rw (s.available, kept) (get_credential_of_IsStored id c s),
  )
    where
      go :
          (o : Option String)
          → api.credential_by_hash hash ≡ ok o
          → by_id api o ≡ some c
          → (id : String) × (api.credential_by_hash hash ≡ ok (some id)) × IsStored api id c
      go none kept found = cc
      go (some id) kept found = (id, kept, get_credential-IsStored id c found)

  guarded-Among :
      {A : Type 0} (pallet : String) (m : Settled (List A)) (a : A)
      → Among a (guarded api pallet [] m)
      → (check_pallet_availability api pallet ≡ true) × (l : List A) × (m ≡ ok l) × Among a l
  guarded-Among pallet m a h = elim (Bool-cases (check_pallet_availability api pallet)) [
    | inr absent ↦ let never = rw absent at h in absurd never
    | inl there ↦ let (l, e, h') = or_else-Among m a (rw there at h) in (there, l, e, h')
  ]

  -- The credentials of a holder are exactly those that are stored, and can be formatted, under one
  -- of the ids that the chain keeps for the holder.
  pub get_credentials_by_holder-Among :
      (address : String) (c : Credential)
      → Among c (get_credentials_by_holder api address) ↔ (
          (refs : List CredentialRef) × (ref : CredentialRef) × (api.credentials_by_holder address
            ≡ ok (some refs))
          × Among ref refs
          × IsStored api ref.credential_id c)
  unfolding get_credentials_by_holder
  get_credentials_by_holder-Among address c = (
    λ m.
        let (there, l, settled, m') = guarded-Among "credential" _ c m in
        let (o, kept, same) = >>=-eq-ok (api.credentials_by_holder address) _ l settled in
        go o kept (subst (Among c) (sym (ok-injective _ l same)) m'),
    λ (refs, ref, kept, m, s).
        rw (s.available, kept)
          (Among-somes by_ref refs ref c m (get_credential_of_IsStored ref.credential_id c s)),
  )
    where
      by_ref : CredentialRef → Option Credential
      by_ref ref = get_credential api ref.credential_id

      go :
          (o : Option (List CredentialRef))
          → api.credentials_by_holder address ≡ ok o
          → Among c (somes (map by_ref (get_or o [])))
          → (refs : List CredentialRef) × (ref : CredentialRef) × (api.credentials_by_holder address
              ≡ ok (some refs))
            × Among ref refs
            × IsStored api ref.credential_id c
      go none kept m = elim m [ ]
      go (some refs) kept m =
          let (ref, m', found) = somes-Among by_ref refs c m in
          (refs, ref, kept, m', get_credential-IsStored ref.credential_id c found)

  -- The same for an issuer, whose ids the chain keeps bare.
  pub get_credentials_by_issuer-Among :
      (address : String) (c : Credential)
      → Among c (get_credentials_by_issuer api address) ↔ (
          (ids : List String) × (id : String) × (api.credentials_by_issuer address ≡ ok (some ids))
          × Among id ids
          × IsStored api id c)
  unfolding get_credentials_by_issuer
  get_credentials_by_issuer-Among address c = (
    λ m.
        let (there, l, settled, m') = guarded-Among "credential" _ c m in
        let (o, kept, same) = >>=-eq-ok (api.credentials_by_issuer address) _ l settled in
        go o kept (subst (Among c) (sym (ok-injective _ l same)) m'),
    λ (ids, id, kept, m, s).
        rw (s.available, kept)
          (Among-somes (get_credential api) ids id c m (get_credential_of_IsStored id c s)),
  )
    where
      go :
          (o : Option (List String))
          → api.credentials_by_issuer address ≡ ok o
          → Among c (somes (map (get_credential api) (get_or o [])))
          → (ids : List String) × (id : String) × (api.credentials_by_issuer address
              ≡ ok (some ids))
            × Among id ids
            × IsStored api id c
      go none kept m = elim m [ ]
      go (some ids) kept m =
          let (id, m', found) = somes-Among (get_credential api) ids c m in
          (ids, id, kept, m', get_credential-IsStored id c found)

  -- The combined data agree with the single queries: a user is verified only if an institution, and
  -- both views say of an address what the queries of the DID pallet say.
  pub get_user_data_flags :
      (address : String)
      → let u = get_user_data api address in
        (u.is_institution ≡ is_institution api address)
        × (u.is_verified ≡ is_verified_institution api address)
        × ((get_institution_data api address).is_verified ≡ u.is_verified)
        × (u.is_verified ≡ true → u.is_institution ≡ true)
  unfolding get_user_data get_institution_data is_institution is_verified_institution
  get_user_data_flags address =
      (refl, refl, refl, verified_needs_some (get_institution api address))
    where
      verified_needs_some : (i : Option InstitutionData) → verified_true i ≡ true → is_some i ≡ true
      verified_needs_some none e = e
      verified_needs_some (some i) e = refl
