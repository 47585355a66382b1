-- ===== src/Provider/Wallet.antt =====
-- academic-verification-frontend/src/providers/WalletProvider.tsx. The provider's operations change
-- the wallet store, the DID store and the browser's storage, and raise toasts; a toast is modelled
-- by its kind and its title. What the wallet extension answers and the chain are arguments:
-- `none` for the chain stands for a connection that is not ready. `api.query.did?.…` skips the
-- query on a node without the pallet.
pub mod Check
pub mod Session
pub mod Tests
use Prim.Native.String
use academic_verification.Prelude.{
  ℕ, zero, suc, ◌+◌, String, Bool, true, false, ◌==◌, ◌&&◌, Option, none, some, List, [], ◌∷◌, ◌++◌,
  map, find, Settled, ok, err, ◌>>=◌, get_or, num_or, str_or, if◌then◌else◌, decimal, truthy_str,
  includes,
}
use academic_verification.Constants.{DidStatus, active, inactive}
use academic_verification.Hex.{Value, decode_institution_name}
use academic_verification.Chain.{Api, DidDocument, PublicKeyData, InstitutionData}
use academic_verification.Store.Did
use academic_verification.Store.Did.{
  DidState, PublicKey, set_did, set_status, set_institution, clear_did,
}
use academic_verification.Store.Wallet.{Account, WalletState, select_account}

pub data Toast : Type 0 where
  success : String → Toast
  info : String → Toast
  warning : String → Toast
  error : String → Toast

pub record AppState : Type 0 where
  pub wallet : WalletState
  pub did : DidState
  pub toasts : List Toast

unfoldable pub toast : Toast → AppState → AppState
toast t s = record s { toasts = s.toasts ++ t ∷ [] }

abbrev pub on_did : (DidState → DidState) → AppState → AppState
on_did f s = record s { did = f s.did }

-- One item of `didData.publicKeys?.map(…)`.
unfoldable pub key_of : Option ℕ → ℕ → ℕ → PublicKeyData → PublicKey
key_of created_at now index key = record {
  id = str_or key.key_id (String.◌++◌ "key_" (decimal index));
  key_type = str_or key.key_type "Ed25519";
  public_key = str_or key.public_key "";
  added_at = num_or created_at now;
}

unfoldable pub keys_from : Option ℕ → ℕ → ℕ → List PublicKeyData → List PublicKey
unfolding key_of
keys_from created_at now index [] = []
keys_from created_at now index (key ∷ keys) =
    key_of created_at now index key ∷ keys_from created_at now (index + 1) keys

-- `localDID.didAddress === address && localDID.hasDID`
unfoldable pub is_local : String → DidState → Bool
is_local address d = elim d.did_address [ none ↦ false | some a ↦ (a == address) && d.has_did ]

-- `api.query.did?.q(address)`
unfoldable pub optional_query {ℓ} : {A : Type ℓ} → Api → Settled (Option A) → Settled (Option A)
optional_query api q = api.has_pallet "did" >>= λ there. if there then q else ok none

-- What `checkDIDOnBlockchain` writes of a document that it found.
unfoldable pub adopt : Api → String → DidDocument → AppState → AppState
unfolding set_did set_status keys_from
adopt api address d s = on_did (set_status (if d.active then active else inactive)) (
    on_did (set_did api.now address (keys_from d.created_at api.now 0 (get_or d.public_keys []))) s)

-- `account` and `accounts` as the stores keep them.
unfoldable pub connect : Account → List Account → WalletState → WalletState
connect account accounts w = record w {
  is_connected = true;
  account = some account;
  accounts = accounts;
}

-- The account that is restored: the saved one if the extension still offers it, else the first.
unfoldable pub restored : Option String → Account → List Account → Account
restored saved first all =
    if truthy_str saved
    then get_or (find (λ acc. acc.address == get_or saved "") all) first
    else first

-- The toasts of `enableWallet`'s `catch`, by what the message includes.
unfoldable pub rejection_toast : Bool → Bool → Toast
rejection_toast true pending = error "Connection rejected"
rejection_toast false true = warning "Authorization pending"
rejection_toast false false = error "Failed to connect wallet"

module _ (hex_to_string : String → Settled String) where
  -- The second query of `checkDIDOnBlockchain`. Where it throws, what the first part wrote stays.
  unfoldable pub load_institution : Settled (Option InstitutionData) → AppState → AppState
  unfolding toast set_institution
  load_institution (err m) s = s
  load_institution (ok none) s = toast (success "DID loaded from blockchain") s
  load_institution (ok (some i)) s =
      toast (success "Institution loaded")
        (on_did (set_institution (decode_institution_name hex_to_string i.name)) s)

  unfoldable pub load_did : Api → String → Settled (Option DidDocument) → AppState → AppState
  unfolding load_institution toast adopt clear_did is_local
  load_did api address (err m) s = s
  load_did api address (ok none) s =
      if is_local address s.did
      then toast (info "Using locally stored DID") s
      else on_did clear_did s
  load_did api address (ok (some d)) s =
      load_institution (optional_query api (api.institutions address)) (adopt api address d s)

  unfoldable pub check_did_on_blockchain : Option Api → String → AppState → AppState
  unfolding load_did
  check_did_on_blockchain none address s = s
  check_did_on_blockchain (some api) address s =
      load_did api address (optional_query api (api.did_documents address)) s

  -- `checkConnection`, on mount. The extension is asked to enable itself, with the number of
  -- extensions found, and for its accounts; an error is only logged.
  unfoldable pub restore_accounts : Option Api → List Account → AppState → AppState
  unfolding connect restored check_did_on_blockchain
  restore_accounts chain [] s = s
  restore_accounts chain (first ∷ more) s =
      let account = restored s.wallet.saved_address first (first ∷ more) in
      check_did_on_blockchain chain account.address
        (record s { wallet = connect account (first ∷ more) s.wallet })

  unfoldable pub check_connection :
      Option Api → Settled ℕ → Settled (List Account) → AppState → AppState
  unfolding restore_accounts
  check_connection chain (err m) accounts s = s
  check_connection chain (ok zero) accounts s = s
  check_connection chain (ok (suc n)) (err m) s = s
  check_connection chain (ok (suc n)) (ok accounts) s = restore_accounts chain accounts s

  abbrev pub catch_enable : String → AppState → AppState
  catch_enable m s =
      toast (rejection_toast (includes m "Rejected") (includes m "pending authorization")) s

  -- `enableWallet`
  unfoldable pub enable_accounts : Option Api → List Account → AppState → AppState
  unfolding toast connect check_did_on_blockchain
  enable_accounts chain [] s = toast (error "No accounts found") s
  enable_accounts chain (first ∷ more) s =
      let w = record (connect first (first ∷ more) s.wallet) {
        saved_address = some first.address;
      } in
      check_did_on_blockchain chain first.address
        (toast (success "Wallet connected") (record s { wallet = w }))

  unfoldable pub enable_wallet :
      Option Api → Settled ℕ → Settled (List Account) → AppState → AppState
  unfolding enable_accounts rejection_toast
  enable_wallet chain (err m) accounts s = catch_enable m s
  enable_wallet chain (ok zero) accounts s = toast (error "No wallet extension found") s
  enable_wallet chain (ok (suc n)) (err m) s = catch_enable m s
  enable_wallet chain (ok (suc n)) (ok accounts) s = enable_accounts chain accounts s

  -- The provider's `selectAccount`.
  unfoldable pub switch_to : Option Api → String → Option Account → AppState → AppState
  unfolding toast check_did_on_blockchain
  switch_to chain address none s = s
  switch_to chain address (some account) s = check_did_on_blockchain chain address (
      toast (success "Account switched") (record s {
        wallet = record (s.wallet) { account = some account; saved_address = some address };
      }))

  unfoldable pub provider_select_account : Option Api → String → AppState → AppState
  unfolding switch_to
  provider_select_account chain address s =
      switch_to chain address (find (λ acc. acc.address == address) s.wallet.accounts) s
