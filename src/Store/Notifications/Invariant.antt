-- ===== src/Store/Notifications/Invariant.antt =====
-- The unread badge against the list of notifications.
use academic_verification.Prelude.{
  ◌+◌, ◌≤◌, ◌<◌, true, false, ◌≡◌, refl, sym, arith, Bool-cases, inl, inr,
}
use academic_verification.Store.Notifications.{
  Notification, NotificationsState, empty, Action, add, mark, mark_all, remove, clear, perform,
  handle_notification_click, get_unread_count,
}
use academic_verification.Store.Notifications.Counting.{
  unread_in, IsFresh, HasDistinctIds, has_unread, unread_in-mark_missing, unread_in-mark_present,
  unread_in-remove, unread_in-mark_all, HasDistinctIds-mark, HasDistinctIds-all,
  HasDistinctIds-filter,
}

-- The ids differ, and the badge counts the unread notifications.
pub record IsExact (s : NotificationsState) : Type 0 where
  pub distinct : HasDistinctIds s.notifications
  pub counted : s.unread_count ≡ unread_in s.notifications

-- The ids differ, and the badge counts at most the unread notifications.
pub record IsWithin (s : NotificationsState) : Type 0 where
  pub distinct : HasDistinctIds s.notifications
  pub bounded : s.unread_count ≤ unread_in s.notifications

-- The new id of `addNotification` is not in use.
abbrev pub AddsFresh : Action → NotificationsState → Type 0
AddsFresh (add id now d) s = IsFresh id s.notifications
AddsFresh _ s = Unit

-- Only a notification that is unread is marked.
abbrev pub MarksUnread : Action → NotificationsState → Type 0
MarksUnread (mark id) s = has_unread id s.notifications ≡ true
MarksUnread _ s = Unit

pub perform-IsExact :
    (a : Action) (s : NotificationsState)
    → AddsFresh a s
    → MarksUnread a s
    → IsExact s
    → IsExact (perform a s)
unfolding perform
perform-IsExact (add id now d) s f m e = record {
  distinct = (f, e.distinct);
  counted = ground arith;
}
perform-IsExact (mark id) s f m e = record {
  distinct = HasDistinctIds-mark id s.notifications e.distinct;
  counted = omega (arith, e.counted, unread_in-mark_present id s.notifications e.distinct m);
}
perform-IsExact mark_all s f m e = record {
  distinct = HasDistinctIds-all s.notifications e.distinct;
  counted = sym (unread_in-mark_all s.notifications);
}
perform-IsExact (remove id) s f m e = record {
  distinct = HasDistinctIds-filter _ s.notifications e.distinct;
  counted = ground (arith, e.counted, unread_in-remove id s.notifications e.distinct);
}
perform-IsExact clear s f m e = record { distinct = tt; counted = refl }

pub perform-IsWithin :
    (a : Action) (s : NotificationsState) → AddsFresh a s → IsWithin s → IsWithin (perform a s)
unfolding perform
perform-IsWithin (add id now d) s f e = record {
  distinct = (f, e.distinct);
  bounded = ground arith;
}
perform-IsWithin (mark id) s f e = record {
  distinct = HasDistinctIds-mark id s.notifications e.distinct;
  bounded = elim (Bool-cases (has_unread id s.notifications)) [
    | inl here ↦ omega (arith, e.bounded, unread_in-mark_present id s.notifications e.distinct here)
    | inr missing ↦ omega (arith, e.bounded, unread_in-mark_missing id s.notifications missing)
  ];
}
perform-IsWithin mark_all s f e = record {
  distinct = HasDistinctIds-all s.notifications e.distinct;
  bounded = omega arith;
}
perform-IsWithin (remove id) s f e = record {
  distinct = HasDistinctIds-filter _ s.notifications e.distinct;
  bounded = ground (arith, e.bounded, unread_in-remove id s.notifications e.distinct);
}
perform-IsWithin clear s f e = record { distinct = tt; bounded = omega arith }

-- The states that a sequence of actions leads to, each with a fresh id where it adds.
pub data Reach : NotificationsState → Type 0 where
  start : Reach empty
  next : {s : NotificationsState} (a : Action) → Reach s → AddsFresh a s → Reach (perform a s)

-- Whatever actions the user and the pages make, the ids stay distinct, and the badge never counts
-- more than the unread notifications.
pub Reach-IsWithin : {s : NotificationsState} → Reach s → IsWithin s
Reach-IsWithin start = record { distinct = tt; bounded = omega arith }
Reach-IsWithin (next {s} a r f) = perform-IsWithin a s f (Reach-IsWithin r)

-- A click on a notification that is already read takes one from an exact badge: as long as another
-- notification is unread, the badge is too small by one after it.
pub handle_notification_click_read :
    (n : Notification) (s : NotificationsState)
    → IsExact s
    → has_unread n.id s.notifications ≡ false
    → 0 < unread_in s.notifications
    → let s' = (handle_notification_click n s).0 in
      get_unread_count s' + 1 ≡ unread_in s'.notifications
unfolding handle_notification_click get_unread_count
handle_notification_click_read n s e h k =
    ground (arith, e.counted, unread_in-mark_missing n.id s.notifications h)
