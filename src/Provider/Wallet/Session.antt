-- ===== src/Provider/Wallet/Session.antt =====
-- The wallet provider keeps both stores in order, and restores an account that is offered.
use academic_verification.Prelude.{
  ℕ, zero, suc, String, true, false, ◌==◌, Option, none, some, List, [], ◌∷◌, find, Settled, ok,
  err, get_or, ◌≡◌, refl, inl, inr, arith, Bool-cases, Option-cases, Among, sym, ◌∙◌, ap, is_some,
}
use mathlib.Core.Bool.{false≢true}
use academic_verification.Chain.{Api, DidDocument, InstitutionData}
use academic_verification.Store.Did
use academic_verification.Store.Did.{initial}
use academic_verification.Store.Wallet
use academic_verification.Store.Did.Laws.{IsConsistent, perform-IsConsistent}
use academic_verification.Store.Wallet.{Account, WalletState}
use academic_verification.Store.Wallet.Laws.{
  IsValid, find-offered, connected_of_Among, perform-IsValid,
}
use academic_verification.Provider.Wallet.{
  AppState, Toast, restored, check_connection, enable_wallet, switch_to, provider_select_account,
  load_did, load_institution, check_did_on_blockchain, optional_query, is_local, adopt,
}

-- Both stores are in order.
pub record IsWell (s : AppState) : Type 0 where
  pub did : IsConsistent s.did
  pub wallet : IsValid s.wallet

abbrev pub start_state : AppState
start_state = record {
  wallet = record {
    is_connected = false;
    account = none;
    accounts = [];
    balance = "0";
    saved_address = none;
  };
  did = initial;
  toasts = [];
}

module _ (hex_to_string : String → Settled String) where
  load_institution-IsWell :
      (r : Settled (Option InstitutionData)) (s : AppState)
      → IsWell s
      → IsWell (load_institution hex_to_string r s)
  unfolding load_institution
  load_institution-IsWell (err m) s w = w
  load_institution-IsWell (ok none) s w = record { did = w.did; wallet = w.wallet }
  load_institution-IsWell (ok (some i)) s w = record {
    did = record { addressed = w.did.addressed; dated = w.did.dated; named = refl };
    wallet = w.wallet;
  }

  load_did-IsWell :
      (api : Api) (address : String) (r : Settled (Option DidDocument)) (s : AppState)
      → IsWell s
      → IsWell (load_did hex_to_string api address r s)
  unfolding load_did
  load_did-IsWell api address (err m) s w = w
  load_did-IsWell api address (ok none) s w = elim (Bool-cases (is_local address s.did)) [
    | inl own ↦ rw own (record { did = w.did; wallet = w.wallet })
    | inr foreign ↦ rw foreign (record {
      did = record { addressed = refl; dated = refl; named = refl };
      wallet = w.wallet;
    })
  ]
  load_did-IsWell api address (ok (some d)) s w =
      load_institution-IsWell (optional_query api (api.institutions address))
        (adopt api address d s)
        (record {
          did = record { addressed = refl; dated = refl; named = w.did.named };
          wallet = w.wallet;
        })

  check-IsWell :
      (chain : Option Api) (address : String) (s : AppState)
      → IsWell s
      → IsWell (check_did_on_blockchain hex_to_string chain address s)
  unfolding check_did_on_blockchain
  check-IsWell none address s w = w
  check-IsWell (some api) address s w =
      load_did-IsWell api address (optional_query api (api.did_documents address)) s w

  -- An account that is selected out of the offered ones leaves both stores in order.
  selected-IsWell :
      (chain : Option Api) (address : String) (s : AppState) (account : Account) (w : WalletState)
      → IsConsistent s.did
      → w.is_connected ≡ true
      → w.account ≡ some account
      → Among account w.accounts
      → (ts : List Toast)
      → IsWell (
          check_did_on_blockchain hex_to_string chain address
            (record { wallet = w; did = s.did; toasts = ts }))
  selected-IsWell chain address s account w d on chosen m ts =
      check-IsWell chain address _ (record {
        did = d;
        wallet = record {
          connected = on ∙ sym (ap is_some chosen);
          offered = rw chosen m;
          idle = λ off. absurd (false≢true (sym off ∙ on));
        };
      })

  enable_wallet-IsWell :
      (chain : Option Api) (extensions : Settled ℕ) (accounts : Settled (List Account))
      (s : AppState)
      → IsWell s
      → IsWell (enable_wallet hex_to_string chain extensions accounts s)
  unfolding enable_wallet
  enable_wallet-IsWell chain (err m) accounts s w = record { did = w.did; wallet = w.wallet }
  enable_wallet-IsWell chain (ok zero) accounts s w = record { did = w.did; wallet = w.wallet }
  enable_wallet-IsWell chain (ok (suc n)) (err m) s w = record { did = w.did; wallet = w.wallet }
  enable_wallet-IsWell chain (ok (suc n)) (ok []) s w = record { did = w.did; wallet = w.wallet }
  enable_wallet-IsWell chain (ok (suc n)) (ok (first ∷ more)) s w =
      selected-IsWell chain first.address s first _ w.did refl refl (inl refl) _

  restored-Among :
      (saved : Option String) (first : Account) (more : List Account)
      → Among (restored saved first (first ∷ more)) (first ∷ more)
  unfolding restored
  restored-Among saved first more =
      elim (Option-cases (find (λ acc. acc.address == get_or saved "") (first ∷ more))) [
        | inl missing ↦ ground (arith, missing)
        | inr (account, found) ↦
            ground (arith, found, find-offered (get_or saved "") (first ∷ more) account found)
      ]

  check_connection-IsWell :
      (chain : Option Api) (extensions : Settled ℕ) (accounts : Settled (List Account))
      (s : AppState)
      → IsWell s
      → IsWell (check_connection hex_to_string chain extensions accounts s)
  unfolding check_connection
  check_connection-IsWell chain (err m) accounts s w = w
  check_connection-IsWell chain (ok zero) accounts s w = w
  check_connection-IsWell chain (ok (suc n)) (err m) s w = w
  check_connection-IsWell chain (ok (suc n)) (ok []) s w = w
  check_connection-IsWell chain (ok (suc n)) (ok (first ∷ more)) s w =
      let account = restored s.wallet.saved_address first (first ∷ more) in
      selected-IsWell chain account.address s account _ w.did refl refl
        (restored-Among s.wallet.saved_address first more) _

  provider_select_account-IsWell :
      (chain : Option Api) (address : String) (s : AppState)
      → IsWell s
      → IsWell (provider_select_account hex_to_string chain address s)
  unfolding provider_select_account
  provider_select_account-IsWell chain address s w =
      elim (Option-cases (find (λ acc. acc.address == address) s.wallet.accounts)) [
        | inl missing ↦ rw (missing, switch_to) w
        | inr (account, found) ↦
            let (m, _) = find-offered address s.wallet.accounts account found in
            rw (found, switch_to)
              (selected-IsWell chain address s account _ w.did
                (connected_of_Among account s.wallet w.wallet m) refl m _)
      ]

  -- The states that the provider's operations and the stores' own lead to, in any order, whatever the
  -- wallet extension and the chain answer.
  pub data Reach : AppState → Type 0 where
    start : Reach start_state
    mounted :
        {s : AppState} (chain : Option Api) (extensions : Settled ℕ)
        (accounts : Settled (List Account))
        → Reach s
        → Reach (check_connection hex_to_string chain extensions accounts s)
    enabled :
        {s : AppState} (chain : Option Api) (extensions : Settled ℕ)
        (accounts : Settled (List Account))
        → Reach s
        → Reach (enable_wallet hex_to_string chain extensions accounts s)
    switched :
        {s : AppState} (chain : Option Api) (address : String)
        → Reach s
        → Reach (provider_select_account hex_to_string chain address s)
    checked :
        {s : AppState} (chain : Option Api) (address : String)
        → Reach s
        → Reach (check_did_on_blockchain hex_to_string chain address s)
    on_wallet :
        {s : AppState} (a : Wallet.Action)
        → Reach s
        → Reach (record s { wallet = Wallet.perform a s.wallet })
    on_identity :
        {s : AppState} (a : Did.Action) → Reach s → Reach (record s { did = Did.perform a s.did })

  -- In every such state an account is selected exactly if the wallet is connected, it is one that the
  -- extension offered, and the fields of the DID store agree.
  pub Reach-IsWell : {s : AppState} → Reach s → IsWell s
  Reach-IsWell start = record {
    did = record { addressed = refl; dated = refl; named = refl };
    wallet = record { connected = refl; offered = tt; idle = λ _. refl };
  }
  Reach-IsWell (mounted {s} chain extensions accounts r) =
      check_connection-IsWell chain extensions accounts s (Reach-IsWell r)
  Reach-IsWell (enabled {s} chain extensions accounts r) =
      enable_wallet-IsWell chain extensions accounts s (Reach-IsWell r)
  Reach-IsWell (switched {s} chain address r) =
      provider_select_account-IsWell chain address s (Reach-IsWell r)
  Reach-IsWell (checked {s} chain address r) = check-IsWell chain address s (Reach-IsWell r)
  Reach-IsWell (on_wallet {s} a r) =
      let w = Reach-IsWell r in record { did = w.did; wallet = perform-IsValid a s.wallet w.wallet }
  Reach-IsWell (on_identity {s} a r) =
      let w = Reach-IsWell r in
      record { did = perform-IsConsistent a s.did w.did; wallet = w.wallet }

-- After a reload the account that was saved is selected again, as long as the extension still offers
-- an account of that address.
pub restored_saved :
    (address : String) (first : Account) (more : List Account) (account : Account)
    → (address == "") ≡ false
    → find (λ acc. acc.address == address) (first ∷ more) ≡ some account
    → (restored (some address) first (first ∷ more) ≡ account) × (account.address ≡ address)
unfolding restored
restored_saved address first more account present found =
    (rw (present, found) refl, (find-offered address (first ∷ more) account found).1)
