-- ===== src/Provider/Connection/Laws.antt =====
-- The context agrees with itself and with the events.
use academic_verification.Prelude.{String, true, false, Option, List, [], ◌∷◌, ◌≡◌, refl, arith}
use academic_verification.Provider.Connection.{
  ConnectionState, waiting, creating, awaiting_ready, Event, initial, fail, time_out, create,
  connect, unmount, step, run, use_blockchain,
}

-- The connection is offered exactly if it is ready, which takes an instance; the timeout runs only
-- while the instance is created, and nothing is awaited before it is there.
pub record IsSound (s : ConnectionState) : Type 0 where
  pub offered : s.api ≡ s.is_ready
  pub made : s.is_ready ≡ true → s.api_instance ≡ true
  pub awaited : s.progress ≡ awaiting_ready → s.api_instance ≡ true
  pub unmade : s.progress ≡ creating → s.api_instance ≡ false
  pub untouched : s.progress ≡ waiting → s.api_instance ≡ false
  pub ended : s.is_mounted ≡ true → s.disconnected ≡ false

step-IsSound : (e : Event) (s : ConnectionState) → IsSound s → IsSound (step e s)
unfolding step fail time_out create connect unmount
step-IsSound e s g = record {
  offered = ground (arith, g.offered);
  made = λ h. ground (arith, g, h);
  awaited = λ h. ground (arith, g, h);
  unmade = λ h. ground (arith, g, h);
  untouched = λ h. ground (arith, g, h);
  ended = λ h. ground (arith, g, h);
}

run-kept : (es : List Event) (s : ConnectionState) → IsSound s → IsSound (run es s)
unfolding run
run-kept [] s g = g
run-kept (e ∷ es) s g = run-kept es (step e s) (step-IsSound e s g)

-- Whatever happens, in whatever order, the context offers a connection exactly if it is ready, and
-- then it was made; transactions and queries are there exactly then; and as long as the provider is
-- mounted, the connection is not ended.
pub run-IsSound :
    (es : List Event) (account : Option String)
    → let s = run es initial in
      IsSound s
      × ((use_blockchain s account).transactions ≡ s.is_ready)
      × ((use_blockchain s account).queries ≡ s.is_ready)
unfolding use_blockchain
run-IsSound es account =
    let g = run-kept es initial (record {
      offered = refl;
      made = λ h. cc;
      awaited = λ h. cc;
      unmade = λ h. cc;
      untouched = λ h. refl;
      ended = λ h. refl;
    }) in
    (g, ground (arith, g.offered), ground (arith, g.offered))
