-- ===== src/Provider/Connection/Late.antt =====
-- What happens to a connection that is made late.
use academic_verification.Prelude.{true, false, is_some, List, [], ◌∷◌, ◌≡◌, refl, ◌∙◌, arith}
use academic_verification.Provider.Connection.{
  ConnectionState, creating, Event, timed_out, created, ready, unmounted, fail, time_out, create,
  connect, unmount, step, run,
}

step_error :
    (e : Event) (s : ConnectionState) → is_some s.error ≡ true → is_some (step e s).error ≡ true
unfolding step fail time_out create connect unmount
step_error e s h = ground (arith, h)

run_error :
    (es : List Event) (s : ConnectionState)
    → is_some s.error ≡ true
    → is_some (run es s).error ≡ true
unfolding run
run_error [] s h = h
run_error (e ∷ es) s h = run_error es (step e s) (step_error e s h)

-- If the node answers only after the timeout, the connection is ready and the error stays: the
-- provider shows one whatever happens afterwards.
pub run_after_timeout :
    (later : List Event) (s : ConnectionState)
    → s.progress ≡ creating
    → s.is_mounted ≡ true
    → s.timeout_set ≡ true
    → let t = run (timed_out ∷ (created ∷ (ready ∷ []))) s in
      (t.is_ready ≡ true) × (is_some (run later t).error ≡ true)
unfolding run step time_out create connect
run_after_timeout later s at mounted set = (
  ground (arith, at, mounted, set),
  run_error later (run (timed_out ∷ (created ∷ (ready ∷ []))) s) (ground (arith, at, mounted, set)),
)

step_unmounted :
    (e : Event) (s : ConnectionState)
    → s.is_mounted ≡ false
    → (step e s).is_mounted ≡ false × ((step e s).disconnected ≡ s.disconnected)
unfolding step fail time_out create connect unmount
step_unmounted e s h = (ground (arith, h), ground (arith, h))

run_unmounted :
    (es : List Event) (s : ConnectionState)
    → s.is_mounted ≡ false
    → (run es s).disconnected ≡ s.disconnected
unfolding run
run_unmounted [] s h = refl
run_unmounted (e ∷ es) s h =
    let (gone, same) = step_unmounted e s h in run_unmounted es (step e s) gone ∙ same

-- If the provider is unmounted while the connection is created, the connection that comes is never
-- ended, whatever happens afterwards.
pub run_created_unmounted :
    (later : List Event) (s : ConnectionState)
    → s.progress ≡ creating
    → s.is_mounted ≡ true
    → s.api_instance ≡ false
    → s.disconnected ≡ false
    → let t = run (unmounted ∷ (created ∷ [])) s in
      (t.api_instance ≡ true) × ((run later t).disconnected ≡ false)
unfolding run step unmount create
run_created_unmounted later s at mounted unmade open' =
    let t = run (unmounted ∷ (created ∷ [])) s in
    (
      ground (arith, at, mounted, unmade),
      run_unmounted later t (ground (arith, at, mounted, unmade))
          ∙ ground (arith, at, mounted, unmade, open'),
    )
