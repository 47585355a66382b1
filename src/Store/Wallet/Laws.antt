-- ===== src/Store/Wallet/Laws.antt =====
-- The selected account is one that the wallet extension offered.
use academic_verification.Prelude.{
  String, true, false, ◌==◌, Option, none, some, is_some, List, [], ◌∷◌, find, ◌≡◌, refl, Among,
  eq_iff, Bool-cases, inl, inr, sym, some-injective, Option-cases, ◌⊎◌, subst,
}
use academic_verification.Store.Wallet.{
  Account, WalletState, select_account, choose, Action, disconnect, select, balance, perform,
}

abbrev pub IsOffered : Option Account → List Account → Type 0
IsOffered none accounts = Unit
IsOffered (some account) accounts = Among account accounts

-- An account is selected exactly if the wallet is connected, and it is one of those offered.
pub record IsValid (s : WalletState) : Type 0 where
  pub connected : s.is_connected ≡ is_some s.account
  pub offered : IsOffered s.account s.accounts
  pub idle : s.is_connected ≡ false → s.accounts ≡ []

pub find-offered :
    (address : String) (accounts : List Account) (account : Account)
    → find (λ acc. acc.address == address) accounts ≡ some account
    → Among account accounts × (account.address ≡ address)
find-offered address [] account e = cc
find-offered address (a ∷ accounts) account e = elim (Bool-cases (a.address == address)) [
  | inl same ↦
      let here = some-injective a account (rw same at e) in
      (inl (sym here), rw (← here) ((eq_iff a.address address).0 same))
  | inr other ↦ let (m, h) = find-offered address accounts account (rw other at e) in (inr m, h)
]

-- Selecting an address that was not offered changes nothing. Selecting one that was selects an
-- offered account with that address, saves the address, and leaves the rest alone.
pub select_account-Among :
    (address : String) (s : WalletState)
    → (select_account address s ≡ s)
      ⊎ ((account : Account) × Among account s.accounts
          × (account.address ≡ address)
          × (select_account address s
              ≡ record s { account = some account; saved_address = some address }))
unfolding select_account
select_account-Among address s =
    elim (Option-cases (find (λ acc. acc.address == address) s.accounts)) [
      | inl missing ↦ inl (rw (missing, choose))
      | inr (account, found) ↦
          let (m, h) = find-offered address s.accounts account found in
          inr (account, m, h, rw (found, choose))
    ]

pub connected_of_Among :
    (account : Account) (s : WalletState)
    → IsValid s
    → Among account s.accounts
    → s.is_connected ≡ true
connected_of_Among account s v m = elim (Bool-cases s.is_connected) [
  | inl on ↦ on
  | inr off ↦ absurd (subst (Among account) (v.idle off) m)
]

-- Every operation of the store keeps it valid: an account is selected exactly if the wallet is
-- connected, it is one of those offered, and a wallet that is not connected offers none.
pub perform-IsValid : (a : Action) (s : WalletState) → IsValid s → IsValid (perform a s)
unfolding perform
perform-IsValid disconnect s v = record { connected = refl; offered = tt; idle = λ _. refl }
perform-IsValid (balance b) s v = record {
  connected = v.connected;
  offered = v.offered;
  idle = v.idle;
}
perform-IsValid (select address) s v = elim (select_account-Among address s) [
  | inl same ↦ rw same v
  | inr (account, m, h, e) ↦
      rw e (record { connected = connected_of_Among account s v m; offered = m; idle = v.idle })
]
