-- ===== src/Shell/Navigation.antt =====
-- The links of academic-verification-frontend/src/components/layout/Sidebar.tsx, Header.tsx and
-- Footer.tsx beside it, and of academic-verification-frontend/src/pages/Dashboard.tsx.
use academic_verification.Prelude.{String, Bool, not, List, [], ◌∷◌, ◌++◌, ◌==◌, if◌then◌else◌}
use academic_verification.Store.Did.{DidState}

pub record NavItem : Type 0 where
  pub title : String
  pub href : String

abbrev pub item : String → String → NavItem
item title href = record { title = title; href = href }

-- `navigationItems`
abbrev pub navigation_items : List NavItem
navigation_items =
    item "Dashboard" "/dashboard"
    ∷ (item "My Credentials" "/credentials"
        ∷ (item "Institutions" "/institutions" ∷ (item "Verify" "/verify" ∷ [])))

-- `institutionItems`
abbrev pub institution_items : List NavItem
institution_items =
    item "Institution Profile" "/institution"
    ∷ (item "Issue Credential" "/institution/issue"
        ∷ (item "Issued Credentials" "/institution/issued" ∷ []))

-- `adminItems`
abbrev pub admin_items : List NavItem
admin_items = item "Verify Institutions" "/admin/verify-institutions" ∷ []

-- A link of the sidebar, and whether it is marked as the current one.
pub record SidebarLink : Type 0 where
  pub link : NavItem
  pub is_active : Bool

-- `items.map(…)`
abbrev pub links_at : String → List NavItem → List SidebarLink
links_at pathname [] = []
links_at pathname (i ∷ is) =
    record { link = i; is_active = pathname == i.href } ∷ links_at pathname is

-- What the sidebar shows: the button that opens the form for a new DID, and its sections.
pub record Sidebar : Type 0 where
  pub offers_did : Bool
  pub main : List SidebarLink
  pub institution : List SidebarLink
  pub admin : List SidebarLink
  pub settings : NavItem

unfoldable pub sidebar : DidState → (pathname : String) → Sidebar
sidebar d pathname =
    let show_admin_section = d.is_institution in
    record {
      offers_did = not d.has_did;
      main = links_at pathname navigation_items;
      institution = if d.is_institution then links_at pathname institution_items else [];
      admin = if show_admin_section then links_at pathname admin_items else [];
      settings = item "Settings" "/settings";
    }

-- The links of a sidebar, from the top.
abbrev pub links_of : Sidebar → List SidebarLink
links_of s = s.main ++ (s.institution ++ s.admin)

-- The header: its logo, and the same four links on a wide screen and in the menu of a narrow one.
abbrev pub header_items : List NavItem
header_items =
    item "Academic Verify" "/"
    ∷ (item "Dashboard" "/dashboard"
        ∷ (item "Credentials" "/credentials"
            ∷ (item "Institutions" "/institutions" ∷ (item "Verify" "/verify" ∷ []))))

-- The footer's links to pages.
abbrev pub footer_items : List NavItem
footer_items =
    item "Dashboard" "/dashboard"
    ∷ (item "Verify Credentials" "/verify" ∷ (item "Institutions" "/institutions" ∷ []))

-- The quick actions of the dashboard, and the link to the registration.
unfoldable pub quick_actions : DidState → List NavItem
quick_actions d =
    if d.is_institution
    then (item "Issue Credential" "/institution/issue"
        ∷ (item "View Issued" "/institution/issued" ∷ []))
    else (item "My Credentials" "/credentials"
        ∷ (item "Verify Credential" "/verify" ∷ (item "Register Now" "/institution/register" ∷ [])))
