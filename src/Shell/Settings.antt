-- ===== src/Shell/Settings.antt =====
-- academic-verification-frontend/src/pages/Settings.tsx. The storage of the browser is a list of entries.
use academic_verification.Prelude.{
  String, Bool, true, false, Option, none, some, List, [], ◌∷◌, ◌++◌, str_or,
}
use academic_verification.Store.Wallet.{Account}
use academic_verification.Provider.Wallet.{Toast, success}

pub data Theme : Type 0 where
  light dark system : Theme

pub record SettingsState : Type 0 where
  pub theme : Theme
  pub display_name : String
  pub email_notifications : Bool
  pub browser_notifications : Bool
  pub storage : List (String × String)
  pub downloads : List String
  pub toasts : List Toast

-- The state when the page is opened.
unfoldable pub opened : List (String × String) → SettingsState
opened storage = record {
  theme = system;
  display_name = "";
  email_notifications = true;
  browser_notifications = false;
  storage = storage;
  downloads = [];
  toasts = [];
}

unfoldable pub handle_save_profile : SettingsState → SettingsState
handle_save_profile s = record s {
  toasts = s.toasts ++ success "Profile updated successfully" ∷ [];
}

-- What is exported.
pub record Exported : Type 0 where
  pub account : Option String
  pub did : Option String
  pub exported_at : String

abbrev pub address_of : Option Account → Option String
address_of none = none
address_of (some a) = some a.address

-- `handleExportData`; `to_json` is `JSON.stringify`, `now` the clock's text.
unfoldable pub handle_export_data :
    (to_json : Exported → String) (now : String)
    → Option Account
    → Option String
    → SettingsState
    → SettingsState
handle_export_data to_json now account did_address s = record s {
  downloads =
      s.downloads
      ++ to_json (record { account = address_of account; did = did_address; exported_at = now })
        ∷ [];
  toasts = s.toasts ++ success "Data exported successfully" ∷ [];
}

unfoldable pub handle_clear_cache : SettingsState → SettingsState
handle_clear_cache s = record s {
  storage = [];
  toasts = s.toasts ++ success "Cache cleared successfully" ∷ [];
}

-- The two addresses that are shown.
unfoldable pub shown_addresses : Option Account → Option String → String × String
shown_addresses account did_address =
    (str_or did_address "Not created yet", str_or (address_of account) "Not connected")
