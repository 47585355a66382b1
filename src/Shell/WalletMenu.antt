-- ===== src/Shell/WalletMenu.antt =====
-- academic-verification-frontend/src/components/blockchain/WalletConnect.tsx over the stores of the
-- wallet and of the identity.
use academic_verification.Prelude.{
  String, Bool, false, not, Option, none, some, List, [], ◌∷◌, ◌++◌, if◌then◌else◌, ◌==◌,
}
use academic_verification.Store.Wallet.{Account, disconnect_wallet}
use academic_verification.Provider.Wallet
use academic_verification.Provider.Wallet.{AppState, toast}

-- The menu: whether it is shown, what was written to the clipboard, and the windows that were opened.
pub record Menu : Type 0 where
  pub app : AppState
  pub show_dropdown : Bool
  pub copied : List String
  pub opened : List String

-- `account?.address`, if it is not empty
abbrev pub address_of : Option Account → Option String
address_of none = none
address_of (some a) = if a.address == "" then none else some a.address

abbrev pub copy_of : Option String → Menu → Menu
copy_of none m = m
copy_of (some address) m = record m {
  app = toast (Wallet.success "Address copied to clipboard") m.app;
  show_dropdown = false;
  copied = m.copied ++ address ∷ [];
}

-- `copyAddress`
unfoldable pub copy_address : Menu → Menu
unfolding toast
copy_address m = copy_of (address_of m.app.wallet.account) m

abbrev pub view_of : (explorer : String → String) → Option String → Menu → Menu
view_of explorer none m = m
view_of explorer (some address) m = record m {
  show_dropdown = false;
  opened = m.opened ++ explorer address ∷ [];
}

-- `viewOnExplorer`; `explorer` puts the address into the address of the page.
unfoldable pub view_on_explorer : (explorer : String → String) → Menu → Menu
view_on_explorer explorer m = view_of explorer (address_of m.app.wallet.account) m

-- The button `Disconnect`
unfoldable pub disconnect : Menu → Menu
unfolding disconnect_wallet toast
disconnect m = record m {
  app =
      toast (Wallet.success "Wallet disconnected")
        (record (m.app) { wallet = disconnect_wallet m.app.wallet });
  show_dropdown = false;
}

-- The button that shows and hides the menu.
unfoldable pub toggle : Menu → Menu
toggle m = record m { show_dropdown = not m.show_dropdown }
