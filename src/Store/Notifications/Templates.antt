-- ===== src/Store/Notifications/Templates.antt =====
-- `createNotification` of academic-verification-frontend/src/store/notifications.store.ts, and
-- `formatTime` of academic-verification-frontend/src/components/layout/NotificationBell.tsx. A time that
-- is not after the present is given by its distance, for which `Math.floor` is the division of ℕ.
use Prim.Native.String
use academic_verification.Prelude.{
  ℕ, ◌+◌, ◌-◌, ◌/◌, ◌≤◌, ◌<◌, ltb, String, true, false, ◌==◌, none, some, List, [], ◌∷◌, map,
  decimal, ◌≡◌, refl, arith, truthy_str, eq_refl, if◌then◌else◌, All,
}
use academic_verification.Store.Notifications.{
  Draft, Notification, NotificationsState, request_received, request_approved, request_rejected,
  credential_issued, credential_revoked, endorsement_received, add_notification, set_read, as_read,
  mark_as_read, handle_notification_click,
}

-- The six events that a notification is created for.
pub data Occasion : Type 0 where
  received : (requester_name program_name : String) → Occasion
  approved rejected : (institution_name program_name : String) → Occasion
  issued revoked : (institution_name credential_type : String) → Occasion
  endorsed : (endorser_name : String) → Occasion

infixr 60 ◌⧺◌
abbrev ◌⧺◌ : String → String → String
s ⧺ t = String.◌++◌ s t

unfoldable pub create_notification : Occasion → Draft
create_notification (received requester program) = record {
  kind = request_received;
  title = "New Credential Request";
  message = requester ⧺ (" has requested a credential for " ⧺ program);
  action_url = some "/institution/requests";
  metadata = none;
}
create_notification (approved institution program) = record {
  kind = request_approved;
  title = "Request Approved";
  message = institution ⧺ (" approved your request for " ⧺ program);
  action_url = some "/my-requests";
  metadata = none;
}
create_notification (rejected institution program) = record {
  kind = request_rejected;
  title = "Request Rejected";
  message = institution ⧺ (" rejected your request for " ⧺ program);
  action_url = some "/my-requests";
  metadata = none;
}
create_notification (issued institution credential_type) = record {
  kind = credential_issued;
  title = "Credential Issued";
  message = institution ⧺ (" issued your " ⧺ credential_type);
  action_url = some "/credentials";
  metadata = none;
}
create_notification (revoked institution credential_type) = record {
  kind = credential_revoked;
  title = "Credential Revoked";
  message = "Your " ⧺ (credential_type ⧺ (" from " ⧺ (institution ⧺ " has been revoked")));
  action_url = some "/credentials";
  metadata = none;
}
create_notification (endorsed endorser) = record {
  kind = endorsement_received;
  title = "New Endorsement";
  message = endorser ⧺ " endorsed your institution";
  action_url = some "/institution";
  metadata = none;
}

-- `formatTime`, by the milliseconds since the moment.
unfoldable pub format_time : ℕ → String
unfolding decimal
format_time diff =
    if ltb (diff / 60000) 1
    then "Just now"
    else if ltb (diff / 60000) 60
    then decimal (diff / 60000) ⧺ "m ago"
    else if ltb (diff / 3600000) 24
    then decimal (diff / 3600000) ⧺ "h ago"
    else decimal (diff / 86400000) ⧺ "d ago"

below : (m n : ℕ) → m < n → ltb m n ≡ true
below m n h = ground (arith, h)

above : (m n : ℕ) → n ≤ m → ltb m n ≡ false
above m n h = ground (arith, h)

-- No number of minutes or hours that is shown reaches the next unit, and none that is shown is 0.
pub format_time_units :
    (diff : ℕ)
    → (diff < 60000 → format_time diff ≡ "Just now")
      × (60000 ≤ diff → diff < 3600000 → format_time diff ≡ decimal (diff / 60000) ⧺ "m ago")
      × (3600000 ≤ diff → diff < 86400000 → format_time diff ≡ decimal (diff / 3600000) ⧺ "h ago")
      × (86400000 ≤ diff → format_time diff ≡ decimal (diff / 86400000) ⧺ "d ago")
unfolding format_time
format_time_units diff = (
  λ h. rw (below (diff / 60000) 1 (omega (arith, h))) refl,
  λ h k.
      rw (above (diff / 60000) 1 (omega (arith, h)), below (diff / 60000) 60 (omega (arith, k)))
        refl,
  λ h k.
      rw
        (
          above (diff / 60000) 1 (omega (arith, h)),
          above (diff / 60000) 60 (omega (arith, h)),
          below (diff / 3600000) 24 (omega (arith, k)),
        )
        refl,
  λ h.
      rw
        (
          above (diff / 60000) 1 (omega (arith, h)),
          above (diff / 60000) 60 (omega (arith, h)),
          above (diff / 3600000) 24 (omega (arith, h)),
        )
        refl,
)

abbrev pub created : String → ℕ → Occasion → Notification
created id now o =
    let d = create_notification o in
    record {
      id = id;
      kind = d.kind;
      title = d.title;
      message = d.message;
      read = false;
      created_at = now;
      action_url = d.action_url;
      metadata = d.metadata;
    }

has_action_url : (o : Occasion) → truthy_str (create_notification o).action_url ≡ true
unfolding create_notification
has_action_url (received requester program) = refl
has_action_url (approved institution program) = refl
has_action_url (rejected institution program) = refl
has_action_url (issued institution credential_type) = refl
has_action_url (revoked institution credential_type) = refl
has_action_url (endorsed endorser) = refl

marked_fresh :
    (id : String) (ns : List Notification)
    → All (λ n. (n.id == id) ≡ false) ns
    → map (set_read id) ns ≡ ns
marked_fresh id [] h = refl
marked_fresh id (n ∷ ns) (other, h) = rw (other, marked_fresh id ns h) refl

-- A click on a notification that was just created, with a fresh id, marks it as read, leaves the badge
-- at what it was before, opens the page of the occasion and closes the panel.
pub handle_notification_click-create_notification :
    (id : String) (now : ℕ) (o : Occasion) (s : NotificationsState)
    → All (λ n. (n.id == id) ≡ false) s.notifications
    → handle_notification_click
        (created id now o)
        (add_notification id now (create_notification o) s)
      ≡ (
        record {
          notifications = as_read (created id now o) ∷ s.notifications;
          unread_count = s.unread_count;
        },
        (create_notification o).action_url,
        true,
      )
unfolding handle_notification_click add_notification mark_as_read
handle_notification_click-create_notification id now o s h =
    rw (has_action_url o, eq_refl id, marked_fresh id s.notifications h, back s.unread_count) refl
  where
    back : (n : ℕ) → n + 1 - 1 ≡ n
    back n = omega arith
