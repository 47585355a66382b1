-- ===== src/Provider/Connection/Tests.antt =====
-- A node that answers late, and a provider that is gone before.
use academic_verification.Prelude.{true, some, List, [], ◌∷◌, ◌≡◌, refl}
use academic_verification.Provider.Connection.{
  ConnectionState, initial, Event, started, created, ready, unmounted, creating, step, run,
  use_blockchain,
}
use academic_verification.Provider.Connection.Laws.{IsSound, run-IsSound}

abbrev connected : List Event
connected = started ∷ (created ∷ (ready ∷ (unmounted ∷ [])))

run-IsSound_example :
    let s = run connected initial in
    IsSound s
    × ((use_blockchain s (some "5Stu")).transactions ≡ s.is_ready)
    × ((use_blockchain s (some "5Stu")).queries ≡ s.is_ready)
run-IsSound_example = run-IsSound connected (some "5Stu")

abbrev begun : ConnectionState
begun = record initial { progress = creating; timeout_set = true }

begun_by_timer : step started initial ≡ begun
unfolding step
begun_by_timer = refl
