-- ===== src/Integration/Waiting/Laws.antt =====
-- How the promise of `waitForInBlock` is settled, and what goes on after it.
use academic_verification.Prelude.{
  String, Bool, true, false, Option, none, some, List, [], ◌∷◌, ◌++◌, Settled, ok, err, ◌≡◌, refl,
  ap, ◌∙◌, Option-cases, arith, if◌then◌else◌, All, inl, inr,
}
use academic_verification.Integration.Waiting.{
  Event, timed_out, polled, Waiting, contains, check_transaction, step, run, wait_for_in_block,
}

-- What an event settles the promise with, if it comes first.
abbrev pub decision : String → Event → Option (Settled Bool)
decision tx_hash timed_out = some (err "Transaction timeout")
decision tx_hash (polled (err m)) = some (err m)
decision tx_hash (polled (ok hashes)) = if contains tx_hash hashes then some (ok true) else none

abbrev pub first_some {ℓ} : {A : Type ℓ} → Option A → Option A → Option A
first_some none rest = rest
first_some (some a) rest = some a

abbrev pub first_decision : String → List Event → Option (Settled Bool)
first_decision tx_hash [] = none
first_decision tx_hash (e ∷ es) = first_some (decision tx_hash e) (first_decision tx_hash es)

step_settled :
    (tx_hash : String) (x : Event) (w : Waiting) (r : Settled Bool)
    → w.outcome ≡ some r
    → (step tx_hash x w).outcome ≡ some r
unfolding step check_transaction
step_settled tx_hash timed_out w r e = ground (arith, e)
step_settled tx_hash (polled (ok hashes)) w r e = ground (arith, e)
step_settled tx_hash (polled (err m)) w r e = ground (arith, e)

run_settled :
    (tx_hash : String) (es : List Event) (w : Waiting) (r : Settled Bool)
    → w.outcome ≡ some r
    → (run tx_hash es w).outcome ≡ some r
unfolding run
run_settled tx_hash [] w r e = e
run_settled tx_hash (x ∷ es) w r e =
    run_settled tx_hash es (step tx_hash x w) r (step_settled tx_hash x w r e)

-- While nothing has decided, the timer is set and the polls go on.
abbrev waiting : Waiting
waiting = record { outcome = none; timer_set = true; polling = true }

step_decided :
    (tx_hash : String) (e : Event) (r : Settled Bool)
    → decision tx_hash e ≡ some r
    → (step tx_hash e waiting).outcome ≡ some r
unfolding step check_transaction
step_decided tx_hash timed_out r d = d
step_decided tx_hash (polled (err m)) r d = d
step_decided tx_hash (polled (ok hashes)) r d = ground (arith, d)

step_undecided :
    (tx_hash : String) (e : Event) → decision tx_hash e ≡ none → step tx_hash e waiting ≡ waiting
unfolding step check_transaction
step_undecided tx_hash timed_out d = cc
step_undecided tx_hash (polled (err m)) d = cc
step_undecided tx_hash (polled (ok hashes)) d = ground (arith, d)

run-outcome :
    (tx_hash : String) (es : List Event)
    → (run tx_hash es waiting).outcome ≡ first_decision tx_hash es
unfolding run
run-outcome tx_hash [] = refl
run-outcome tx_hash (e ∷ es) = elim (Option-cases (decision tx_hash e)) [
  | inl undecided ↦
      ap (λ w. (run tx_hash es w).outcome) (step_undecided tx_hash e undecided)
      ∙ run-outcome tx_hash es
      ∙ rw (undecided, first_decision) refl
  | inr (r, decided) ↦
      run_settled tx_hash es (step tx_hash e waiting) r (step_decided tx_hash e r decided)
      ∙ rw (decided, first_decision) refl
]

-- The promise is settled by the first event that decides: the timeout, an error of a poll, or a
-- block with the transaction; it stays pending exactly if there is none.
pub wait_for_in_block-outcome :
    (tx_hash : String) (es : List Event)
    → (wait_for_in_block tx_hash es).outcome ≡ first_decision tx_hash es
unfolding wait_for_in_block
wait_for_in_block-outcome tx_hash es = run-outcome tx_hash es

-- A poll that does not meet the transaction.
abbrev pub IsVain : String → Event → Type 0
IsVain tx_hash timed_out = ⊥
IsVain tx_hash (polled (ok hashes)) = contains tx_hash hashes ≡ false
IsVain tx_hash (polled (err m)) = ⊥

run_vain :
    (tx_hash : String) (es : List Event) (w : Waiting)
    → All (IsVain tx_hash) es
    → run tx_hash es w ≡ w
unfolding run step check_transaction
run_vain tx_hash [] w h = refl
run_vain tx_hash (timed_out ∷ es) w (v, h) = elim v [ ]
run_vain tx_hash (polled (err m) ∷ es) w (v, h) = elim v [ ]
run_vain tx_hash (polled (ok hashes) ∷ es) w (v, h) = ground (arith, v, run_vain tx_hash es w h)

run-append :
    (tx_hash : String) (es fs : List Event) (w : Waiting)
    → run tx_hash (es ++ fs) w ≡ run tx_hash fs (run tx_hash es w)
unfolding run
run-append tx_hash [] fs w = refl
run-append tx_hash (e ∷ es) fs w = run-append tx_hash es fs (step tx_hash e w)

timer_fired :
    (tx_hash : String) (after : List Event)
    → All (IsVain tx_hash) after
    → run tx_hash (timed_out ∷ after) waiting
      ≡ record { outcome = some (err "Transaction timeout"); timer_set = false; polling = true }
unfolding run step
timer_fired tx_hash after k =
    run_vain tx_hash after
      (record { outcome = some (err "Transaction timeout"); timer_set = false; polling = true }) k

-- After the timeout the promise is rejected, but the polls go on: as long as none meets the
-- transaction or an error, however many there are, the next one is still scheduled.
pub wait_for_in_block_timeout :
    (tx_hash : String) (before after : List Event)
    → All (IsVain tx_hash) before
    → All (IsVain tx_hash) after
    → wait_for_in_block tx_hash (before ++ timed_out ∷ after)
      ≡ record { outcome = some (err "Transaction timeout"); timer_set = false; polling = true }
unfolding wait_for_in_block
wait_for_in_block_timeout tx_hash before after h k =
    run-append tx_hash before (timed_out ∷ after) waiting
    ∙ ap (run tx_hash (timed_out ∷ after)) (run_vain tx_hash before waiting h)
    ∙ timer_fired tx_hash after k
