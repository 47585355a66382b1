-- ===== src/Store/Ui.antt =====
-- academic-verification-frontend/src/store/ui.store.ts. The class `dark` of the document is a field
-- of the state; what the system prefers is an argument.
pub mod Laws
use academic_verification.Prelude.{Bool, true, false, not}

pub data Theme : Type 0 where
  light dark system : Theme

pub record UiState : Type 0 where
  pub theme : Theme
  pub sidebar_open : Bool
  pub dark_class : Bool

unfoldable pub set_theme : Bool → Theme → UiState → UiState
set_theme prefers_dark dark s = record s { theme = dark; dark_class = true }
set_theme prefers_dark light s = record s { theme = light; dark_class = false }
set_theme true system s = record s { theme = system; dark_class = true }
set_theme false system s = record s { theme = system; dark_class = false }

unfoldable pub toggle_sidebar : UiState → UiState
toggle_sidebar s = record s { sidebar_open = not s.sidebar_open }

unfoldable pub set_sidebar_open : Bool → UiState → UiState
set_sidebar_open b s = record s { sidebar_open = b }
