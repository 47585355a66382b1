-- ===== src/Transactions/Submit/Subscription.antt =====
-- When `submitTransaction` ends its subscription.
use academic_verification.Prelude.{
  String, true, false, none, List, [], ◌∷◌, is_some, ◌≡◌, refl, arith, All,
}
use academic_verification.Transactions.Submit.{
  Registry, Session, Event, returned, result, rejected, SubmittableResult, step, run, started,
  submit_transaction, on_result,
}
use academic_verification.Transactions.Submit.Outcome.{first_verdict, run-outcome}

abbrev pub IsResult : Event → Type 0
IsResult (result r) = Unit
IsResult _ = ⊥

-- The subscription has been handed over, and it is ended exactly when the promise is settled.
record IsTracked (s : Session) : Type 0 where
  open_lem : s.subscribed ≡ true
  ended : s.unsubscribed ≡ is_some s.outcome

-- Nothing was handed over yet, so nothing was ended.
record IsUntracked (s : Session) : Type 0 where
  not_open : s.subscribed ≡ false
  not_ended : s.unsubscribed ≡ false

module _ (find_meta_error : Registry) (tx_hash : String) where
  on_result-IsTracked :
      (r : SubmittableResult) (s : Session)
      → IsTracked s
      → IsTracked (on_result find_meta_error tx_hash r s)
  unfolding on_result
  on_result-IsTracked r s t = ground arith

  on_result-IsUntracked :
      (r : SubmittableResult) (s : Session)
      → IsUntracked s
      → IsUntracked (on_result find_meta_error tx_hash r s)
  unfolding on_result
  on_result-IsUntracked r s t = ground arith

  run-IsTracked :
      (es : List Event) (s : Session)
      → All IsResult es
      → IsTracked s
      → IsTracked (run find_meta_error tx_hash es s)
  unfolding run
  run-IsTracked [] s h t = t
  run-IsTracked (result r ∷ es) s (h, hs) t = run-IsTracked es _ hs (on_result-IsTracked r s t)
  run-IsTracked (returned ∷ es) s (h, hs) t = elim h [ ]
  run-IsTracked (rejected m ∷ es) s (h, hs) t = elim h [ ]

  run-IsUntracked :
      (es : List Event) (s : Session)
      → All IsResult es
      → IsUntracked s
      → IsUntracked (run find_meta_error tx_hash es s)
  unfolding run
  run-IsUntracked [] s h t = t
  run-IsUntracked (result r ∷ es) s (h, hs) t =
      run-IsUntracked es _ hs (on_result-IsUntracked r s t)
  run-IsUntracked (returned ∷ es) s (h, hs) t = elim h [ ]
  run-IsUntracked (rejected m ∷ es) s (h, hs) t = elim h [ ]

  -- If `signAndSend` returns before the first result, the subscription is ended exactly when the
  -- promise is settled.
  pub submit_transaction_ended :
      (es : List Event)
      → All IsResult es
      → let s = submit_transaction find_meta_error tx_hash none (returned ∷ es) in
        s.unsubscribed ≡ is_some s.outcome
  unfolding submit_transaction step
  submit_transaction_ended es h =
      (run-IsTracked es (step find_meta_error tx_hash returned started) h
        (record { open_lem = refl; ended = refl })).ended

  -- If `signAndSend` returns only after the results, the promise is settled by them all the same,
  -- and the subscription is not ended, even if they settled it.
  pub submit_transaction_left_open :
      (es : List Event)
      → All IsResult es
      → let s =
          step find_meta_error tx_hash returned
            (submit_transaction find_meta_error tx_hash none es) in
        (s.outcome ≡ first_verdict find_meta_error tx_hash es)
        × (s.subscribed ≡ true)
        × (s.unsubscribed ≡ false)
  unfolding submit_transaction step
  submit_transaction_left_open es h = (
    run-outcome find_meta_error tx_hash es started,
    refl,
    (run-IsUntracked es started h (record { not_open = refl; not_ended = refl })).not_ended,
  )
