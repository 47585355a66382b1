-- ===== src/Provider/Wallet/Check.antt =====
-- What `checkDIDOnBlockchain` leaves in the DID store.
use academic_verification.Prelude.{
  ℕ, suc, ◌+◌, ◌∙◌, String, true, Option, none, some, List, [], ◌∷◌, length, Settled, ok, err,
  get_or, if◌then◌else◌, ◌≡◌, refl, ◌⊎◌, inl, inr, arith, eq_iff, Option-cases, ap,
}
use academic_verification.Constants.{active, inactive}
use academic_verification.Chain.{Api, DidDocument, InstitutionData, PublicKeyData}
use academic_verification.Store.Did.{DidState, initial}
use academic_verification.Provider.Wallet.{
  AppState, adopt, keys_from, is_local, optional_query, load_did, load_institution,
  check_did_on_blockchain,
}

length-keys_from :
    (c : Option ℕ) (now index : ℕ) (keys : List PublicKeyData)
    → length (keys_from c now index keys) ≡ length keys
unfolding keys_from
length-keys_from c now index [] = refl
length-keys_from c now index (k ∷ keys) = ap suc (length-keys_from c now (index + 1) keys)

-- Two DID states that differ at most in what they say of an institution.
record SameDid (d e : DidState) : Type 0 where
  has_did : d.has_did ≡ e.has_did
  address : d.did_address ≡ e.did_address
  status : d.status ≡ e.status
  keys : d.public_keys ≡ e.public_keys
  created_at : d.created_at ≡ e.created_at

own_address :
    (address : String) (d : DidState) → is_local address d ≡ true → d.did_address ≡ some address
unfolding is_local
own_address address d h = elim (Option-cases d.did_address) [
  | inl absent ↦ let never = rw absent at h in cc
  | inr (a, there) ↦ ground (arith, eq_iff a address)
]

module _ (hex_to_string : String → Settled String) where
  abbrev pub check : Api → String → AppState → AppState
  check api address s = check_did_on_blockchain hex_to_string (some api) address s

  load_institution-SameDid :
      (r : Settled (Option InstitutionData)) (s : AppState)
      → SameDid (load_institution hex_to_string r s).did s.did
        × ((load_institution hex_to_string r s).wallet ≡ s.wallet)
  unfolding load_institution
  load_institution-SameDid (err m) s = ground arith
  load_institution-SameDid (ok none) s = ground arith
  load_institution-SameDid (ok (some i)) s = ground arith

  -- A DID document on the chain becomes the local DID: of the address that was asked for, with the
  -- document's status and as many keys as it lists; the wallet is left alone.
  pub check_did_on_blockchain_found :
      (api : Api) (address : String) (d : DidDocument) (s : AppState)
      → optional_query api (api.did_documents address) ≡ ok (some d)
      → let s' = check api address s in
        (s'.did.has_did ≡ true)
        × (s'.did.did_address ≡ some address)
        × (s'.did.status ≡ (if d.active then active else inactive))
        × (length s'.did.public_keys ≡ length (get_or d.public_keys []))
        × (s'.wallet ≡ s.wallet)
  unfolding check_did_on_blockchain
  check_did_on_blockchain_found api address d s e =
      rw (e, load_did)
        (let (same, wallet) =
            load_institution-SameDid (optional_query api (api.institutions address))
              (adopt api address d s) in
          (
            same.has_did,
            same.address,
            same.status,
            ap length same.keys ∙ length-keys_from d.created_at api.now 0 (get_or d.public_keys []),
            wallet,
          ))

  -- If the chain has a document of the address and answers that the address is no institution, the
  -- store says of the institution what it said before, of whichever account that was.
  pub check_did_on_blockchain_stale :
      (api : Api) (address : String) (d : DidDocument) (s : AppState)
      → optional_query api (api.did_documents address) ≡ ok (some d)
      → optional_query api (api.institutions address) ≡ ok none
      → let s' = check api address s in
        (s'.did.did_address ≡ some address)
        × (s'.did.is_institution ≡ s.did.is_institution)
        × (s'.did.institution_name ≡ s.did.institution_name)
  unfolding check_did_on_blockchain
  check_did_on_blockchain_stale api address d s e f =
      rw (e, load_did) (rw (f, load_institution) (refl, refl, refl))

  -- If the chain answers at all, the DID that is kept afterwards is that of the address that was
  -- asked for, or none is kept.
  pub check_did_on_blockchain_owner :
      (api : Api) (address : String) (o : Option DidDocument) (s : AppState)
      → optional_query api (api.did_documents address) ≡ ok o
      → let s' = check api address s in (s'.did ≡ initial) ⊎ (s'.did.did_address ≡ some address)
  unfolding check_did_on_blockchain
  check_did_on_blockchain_owner api address (some d) s e =
      inr ((check_did_on_blockchain_found api address d s e).1)
  check_did_on_blockchain_owner api address none s e =
      rw (e, load_did) (ground (arith, own_address address s.did))

  -- If the query fails, nothing changes.
  pub check_did_on_blockchain_failed :
      (api : Api) (address : String) (m : String) (s : AppState)
      → optional_query api (api.did_documents address) ≡ err m
      → check api address s ≡ s
  unfolding check_did_on_blockchain
  check_did_on_blockchain_failed api address m s e = rw (e, load_did)
