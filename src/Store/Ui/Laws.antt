-- ===== src/Store/Ui/Laws.antt =====
-- The theme and the document's class.
use academic_verification.Prelude.{Bool, true, ◌≡◌, ◌⊎◌, ◌↔◌, arith}
use academic_verification.Store.Ui.{Theme, dark, system, UiState, set_theme}

-- After a choice of theme the document is dark exactly if the theme is dark, or follows a system
-- that is; the last choice alone counts, and the sidebar is left as it was.
pub set_theme_dark :
    (prefers_dark earlier : Bool) (theme before : Theme) (s : UiState)
    → let s' = set_theme prefers_dark theme (set_theme earlier before s) in
      ((s'.dark_class ≡ true) ↔ ((theme ≡ dark) ⊎ ((theme ≡ system) × (prefers_dark ≡ true))))
      × (s' ≡ set_theme prefers_dark theme s)
unfolding set_theme
set_theme_dark prefers_dark earlier theme before s = ground arith
