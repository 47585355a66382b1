-- ===== src/Store/Wallet.antt =====
-- academic-verification-frontend/src/store/wallet.store.ts. The entry `wallet_address` of the
-- browser's storage is a field of the state.
pub mod Laws
use academic_verification.Prelude.{
  String, Bool, true, false, ◌==◌, Option, none, some, List, [], ◌∷◌, find,
}

pub record Account : Type 0 where
  pub address : String
  pub name : Option String
  pub source : Option String

pub record WalletState : Type 0 where
  pub is_connected : Bool
  pub account : Option Account
  pub accounts : List Account
  pub balance : String
  pub saved_address : Option String

unfoldable pub disconnect_wallet : WalletState → WalletState
disconnect_wallet s = record {
  is_connected = false;
  account = none;
  accounts = [];
  balance = "0";
  saved_address = none;
}

abbrev pub choose : String → Option Account → WalletState → WalletState
choose address none s = s
choose address (some account) s = record s { account = some account; saved_address = some address }

unfoldable pub select_account : String → WalletState → WalletState
select_account address s = choose address (find (λ acc. acc.address == address) s.accounts) s

unfoldable pub set_balance : String → WalletState → WalletState
set_balance balance s = record s { balance = balance }

-- Every way in which the store itself changes its state.
pub data Action : Type 0 where
  disconnect : Action
  select : String → Action
  balance : String → Action

unfoldable pub perform : Action → WalletState → WalletState
unfolding disconnect_wallet select_account set_balance
perform disconnect s = disconnect_wallet s
perform (select address) s = select_account address s
perform (balance b) s = set_balance b s
