-- ===== src/Store/Notifications/Tests.antt =====
-- Runs of the notification store.
use academic_verification.Prelude.{String, true, false, none, some, [], ◌∷◌, refl}
use academic_verification.Store.Notifications.{
  Notification, Draft, NotificationsState, empty, system, perform, mark, add,
}
use academic_verification.Store.Notifications.Invariant.{
  IsExact, IsWithin, start, next, Reach-IsWithin,
}

abbrev draft : Draft
draft = record {
  kind = system;
  title = "Hello";
  message = "";
  action_url = some "/credentials";
  metadata = none;
}

abbrev note : String → Notification
note id = record {
  id = id;
  kind = system;
  title = "Hello";
  message = "";
  read = false;
  created_at = 5;
  action_url = some "/credentials";
  metadata = none;
}

abbrev seen : Notification
seen = record (note "b") { read = true }

abbrev two : NotificationsState
two = record { notifications = note "a" ∷ (seen ∷ []); unread_count = 1 }

two-IsExact : IsExact two
two-IsExact = record { distinct = ((refl, tt), (tt, tt)); counted = refl }

Reach-IsWithin_example : IsWithin (perform (mark "x") (perform (add "a" 5 draft) empty))
Reach-IsWithin_example = Reach-IsWithin (
    next {s = perform (add "a" 5 draft) empty} (mark "x")
      (next {s = empty} (add "a" 5 draft) start tt) tt)
