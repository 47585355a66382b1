-- ===== src/Shell/Routes.antt =====
-- The routes of academic-verification-frontend/src/App.tsx. An address that is in the table leads to
-- its page; at any other one nothing is shown.
use academic_verification.Prelude.{String, Option, List, [], ◌∷◌, lookup}

pub data Page : Type 0 where
  home verify institutions dashboard create_did credentials settings : Page
  institution registration issue_credential issued_credentials admin_verification : Page

abbrev pub routes : List (String × Page)
routes =
    ("/", home)
    ∷ (("/verify", verify)
        ∷ (("/institutions", institutions)
            ∷ (("/dashboard", dashboard)
                ∷ (("/create-did", create_did)
                    ∷ (("/credentials", credentials)
                        ∷ (("/settings", settings)
                            ∷ (("/institution", institution)
                                ∷ (("/institution/register", registration)
                                    ∷ (("/institution/issue", issue_credential)
                                        ∷ (("/institution/issued", issued_credentials)
                                            ∷ (("/admin/verify-institutions", admin_verification)
                                                ∷ [])))))))))))

-- The page that `Routes` shows for a path.
unfoldable pub route : String → Option Page
unfolding lookup
route path = lookup path routes
