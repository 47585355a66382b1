-- ===== src/Store/Notifications.antt =====
-- academic-verification-frontend/src/store/notifications.store.ts, and the click handler of
-- academic-verification-frontend/src/components/layout/NotificationBell.tsx. The new id, of which a
-- part is random, and the clock are arguments of `addNotification`.
pub mod Counting
pub mod Invariant
pub mod Templates
pub mod Tests
use academic_verification.Prelude.{
  ℕ, ◌+◌, ◌-◌, String, Bool, true, false, not, ◌==◌, Option, none, some, List, [], ◌∷◌, map, filter,
  find, if◌then◌else◌, truthy_str,
}
use Prim.Native.String

pub data NotificationType : Type 0 where
  request_received request_approved request_rejected : NotificationType
  credential_issued credential_revoked endorsement_received system : NotificationType

-- `metadata` is kept as it is given, and never read.
pub record Notification : Type 0 where
  pub id : String
  pub kind : NotificationType
  pub title : String
  pub message : String
  pub read : Bool
  pub created_at : ℕ
  pub action_url : Option String
  pub metadata : Option String

-- `Omit<Notification, 'id' | 'read' | 'createdAt'>`
pub record Draft : Type 0 where
  pub kind : NotificationType
  pub title : String
  pub message : String
  pub action_url : Option String
  pub metadata : Option String

pub record NotificationsState : Type 0 where
  pub notifications : List Notification
  pub unread_count : ℕ

abbrev pub empty : NotificationsState
empty = record { notifications = []; unread_count = 0 }

unfoldable pub add_notification : String → ℕ → Draft → NotificationsState → NotificationsState
add_notification id now d s =
    let new_notification : Notification = record {
      id = id;
      kind = d.kind;
      title = d.title;
      message = d.message;
      read = false;
      created_at = now;
      action_url = d.action_url;
      metadata = d.metadata;
    } in
    record { notifications = new_notification ∷ s.notifications; unread_count = s.unread_count + 1 }

abbrev pub as_read : Notification → Notification
as_read n = record n { read = true }

abbrev pub set_read : String → Notification → Notification
set_read id n = if n.id == id then as_read n else n

-- `Math.max(0, state.unreadCount - 1)` is the subtraction that stops at 0.
unfoldable pub mark_as_read : String → NotificationsState → NotificationsState
mark_as_read id s = record {
  notifications = map (set_read id) s.notifications;
  unread_count = s.unread_count - 1;
}

unfoldable pub mark_all_as_read : NotificationsState → NotificationsState
mark_all_as_read s = record { notifications = map as_read s.notifications; unread_count = 0 }

-- `notification && !notification.read`
abbrev pub was_unread : Option Notification → Bool
was_unread none = false
was_unread (some n) = not n.read

unfoldable pub remove_notification : String → NotificationsState → NotificationsState
remove_notification id s = record {
  notifications = filter (λ n. not (n.id == id)) s.notifications;
  unread_count =
      if was_unread (find (λ n. n.id == id) s.notifications)
      then s.unread_count - 1
      else s.unread_count;
}

unfoldable pub clear_all : NotificationsState → NotificationsState
clear_all s = empty

unfoldable pub get_unread_count : NotificationsState → ℕ
get_unread_count s = s.unread_count

-- `handleNotificationClick`: the state after it, where it navigates to, and whether the panel is
-- closed.
unfoldable pub handle_notification_click :
    Notification → NotificationsState → NotificationsState × Option String × Bool
unfolding mark_as_read
handle_notification_click n s =
    let s' = mark_as_read n.id s in
    if truthy_str n.action_url then (s', n.action_url, true) else (s', none, false)

-- Every way in which the state changes.
pub data Action : Type 0 where
  add : String → ℕ → Draft → Action
  mark : String → Action
  mark_all : Action
  remove : String → Action
  clear : Action

unfoldable pub perform : Action → NotificationsState → NotificationsState
unfolding add_notification mark_as_read mark_all_as_read remove_notification clear_all
perform (add id now d) s = add_notification id now d s
perform (mark id) s = mark_as_read id s
perform mark_all s = mark_all_as_read s
perform (remove id) s = remove_notification id s
perform clear s = clear_all s
