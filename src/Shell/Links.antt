-- ===== src/Shell/Links.antt =====
-- The link to the form that issues credentials, and the addresses of the notifications.
use academic_verification.Prelude.{
  ℕ, String, Bool, true, false, not, Option, none, some, is_some, List, find, ◌==◌, ◌&&◌, ◌≡◌, refl,
  arith,
}
use academic_verification.Store.Did.{DidState}
use academic_verification.Store.Notifications.{NotificationsState, handle_notification_click}
use academic_verification.Store.Notifications.Templates.{
  Occasion, received, approved, rejected, issued, revoked, endorsed, create_notification, created,
}
use academic_verification.Shell.Routes.{route}
use academic_verification.Shell.Navigation.{SidebarLink, sidebar, links_of}
use academic_verification.Shell.Identity.{IssueView, issue_form, issue_credential_page}

-- Whether the sidebar has a link to an address.
abbrev pub offers : String → List SidebarLink → Bool
offers href ls = is_some (find (λ l. l.link.href == href) ls)

abbrev pub is_form : IssueView → Bool
is_form v = elim v [ issue_form success cancel ↦ true | _ ↦ false ]

-- The page of the form that issues credentials shows the form exactly if there is a DID and the sidebar
-- offers the link to the page.
pub issue_credential_page-sidebar :
    (d : DidState) (pathname : String)
    → is_form (issue_credential_page d)
      ≡ (d.has_did && offers "/institution/issue" (links_of (sidebar d pathname)))
unfolding issue_credential_page sidebar
issue_credential_page-sidebar d p = ground arith

-- Whether the page of an occasion is about requests.
abbrev pub is_request : Occasion → Bool
is_request (received requester program) = true
is_request (approved institution program) = true
is_request (rejected institution program) = true
is_request (issued institution credential_type) = false
is_request (revoked institution credential_type) = false
is_request (endorsed endorser) = false

abbrev pub leads : Option String → Bool
leads none = false
leads (some href) = is_some (route href)

-- A click on the notification of an occasion leaves the page for an address, and a page stands there
-- exactly if the occasion is not about a request.
pub handle_notification_click-route :
    (id : String) (now : ℕ) (o : Occasion) (s : NotificationsState)
    → (is_some (handle_notification_click (created id now o) s).1 ≡ true)
      × (leads (handle_notification_click (created id now o) s).1 ≡ not (is_request o))
unfolding handle_notification_click create_notification route
handle_notification_click-route id now (received requester program) s = (refl, refl)
handle_notification_click-route id now (approved institution program) s = (refl, refl)
handle_notification_click-route id now (rejected institution program) s = (refl, refl)
handle_notification_click-route id now (issued institution credential_type) s = (refl, refl)
handle_notification_click-route id now (revoked institution credential_type) s = (refl, refl)
handle_notification_click-route id now (endorsed endorser) s = (refl, refl)
