-- ===== src/Transactions/Submit/Updates.antt =====
-- The updates that `submitTransaction` reports, and the end of its subscription.
use academic_verification.Prelude.{
  String, Bool, true, false, Option, none, some, List, [], ◌∷◌, get_or, if◌then◌else◌, ◌≡◌, ◌≢◌,
  refl, arith, All, All-append, inl, inr, Option-cases, Among, Among-append_left,
  Among-append_right, some-injective, Settled-cases,
}
use academic_verification.Transactions.Submit.{
  idle, submitting, finalized, error, TransactionStatus, TransactionResult, SubmittableResult,
  Registry, Session, Event, returned, result, rejected, error_message, failure, success_in, step,
  run, started, submit_transaction, progress, settle, DispatchError, report, resolve,
  end_subscription, signing_update, in_block_update,
}

-- The last update that a result calls for.
abbrev pub closing : TransactionResult → TransactionStatus
closing r = record {
  status = if r.success then finalized else error;
  message = if r.success then "Transaction finalized" else "Transaction failed";
  block_hash = r.block_hash;
  error = r.error;
}

abbrev pub IsReported : TransactionStatus → Type 0
IsReported u = (u.status ≢ idle) × (u.status ≢ submitting)

pub record IsCoherent (s : Session) : Type 0 where
  pub reported : All IsReported s.updates
  pub closed : (r : TransactionResult) → s.outcome ≡ some r → Among (closing r) s.updates

IsCoherent-if :
    (b : Bool) (s t : Session) → IsCoherent s → IsCoherent t → IsCoherent (if b then s else t)
IsCoherent-if true s t c d = c
IsCoherent-if false s t c d = d

report-IsCoherent :
    (u : TransactionStatus) (s : Session) → IsReported u → IsCoherent s → IsCoherent (report u s)
unfolding report
report-IsCoherent u s h c = record {
  reported = All-append IsReported s.updates _ c.reported (h, tt);
  closed = λ r e. Among-append_left s.updates (u ∷ []) (closing r) (c.closed r e);
}

progress-IsCoherent :
    (r : SubmittableResult) (s : Session) → IsCoherent s → IsCoherent (progress r s)
unfolding progress
progress-IsCoherent r s c =
    let ready = IsCoherent-if r.is_ready _ s (report-IsCoherent signing_update s (cc, cc) c) c in
    IsCoherent-if r.is_in_block _ _
      (report-IsCoherent (in_block_update r.as_in_block) _ (cc, cc) ready) ready

-- The three calls that settle the promise.
abbrev finish : TransactionResult → Session → Session
finish r s = resolve r (end_subscription (report (closing r) s))

end_subscription-IsCoherent : (s : Session) → IsCoherent s → IsCoherent (end_subscription s)
unfolding end_subscription
end_subscription-IsCoherent s c =
    IsCoherent-if s.subscribed _ s (record { reported = c.reported; closed = c.closed }) c

resolve-IsCoherent :
    (r : TransactionResult) (s : Session)
    → Among (closing r) s.updates
    → IsCoherent s
    → IsCoherent (resolve r s)
unfolding resolve
resolve-IsCoherent r s m c = record {
  reported = c.reported;
  closed = λ r' e. elim (Option-cases s.outcome) [
    | inl pending ↦ let same : r ≡ r' = some-injective r r' (rw pending at e) in rw (← same) m
    | inr (old, settled) ↦ c.closed r' (ground arith)
  ];
}

end_subscription-updates : (s : Session) → (end_subscription s).updates ≡ s.updates
unfolding end_subscription
end_subscription-updates s = ground arith

report_last : (u : TransactionStatus) (s : Session) → Among u (report u s).updates
unfolding report
report_last u s = Among-append_right s.updates (u ∷ []) u (inl refl)

finish-IsCoherent :
    (r : TransactionResult) (s : Session)
    → IsReported (closing r)
    → IsCoherent s
    → IsCoherent (finish r s)
finish-IsCoherent r s h c =
    let last = report_last (closing r) s in
    resolve-IsCoherent r (end_subscription (report (closing r) s))
      (rw end_subscription-updates last)
      (end_subscription-IsCoherent _ (report-IsCoherent (closing r) s h c))

module _ (find_meta_error : Registry) (tx_hash : String) where
  settle-IsCoherent :
      (r : SubmittableResult) (o : Option DispatchError) (s : Session)
      → IsCoherent s
      → IsCoherent (settle find_meta_error tx_hash r o s)
  unfolding settle
  settle-IsCoherent r none s c =
      IsCoherent-if r.is_finalized _ s
        (finish-IsCoherent (success_in tx_hash r.as_finalized) s (cc, cc) c) c
  settle-IsCoherent r (some e) s c = elim (Settled-cases (error_message find_meta_error e)) [
    | inl (m, readable) ↦ rw (readable, settle) (finish-IsCoherent (failure m) s (cc, cc) c)
    | inr (m, threw) ↦ rw (threw, settle) c
  ]

  step-IsCoherent :
      (e : Event) (s : Session) → IsCoherent s → IsCoherent (step find_meta_error tx_hash e s)
  unfolding step
  step-IsCoherent returned s c = record { reported = c.reported; closed = c.closed }
  step-IsCoherent (rejected reason) s c =
      resolve-IsCoherent (failure (get_or reason "Unknown error")) _
        (report_last (closing (failure (get_or reason "Unknown error"))) s)
        (report-IsCoherent (closing (failure (get_or reason "Unknown error"))) s (cc, cc) c)
  step-IsCoherent (result r) s c =
      settle-IsCoherent r r.dispatch_error _ (progress-IsCoherent r s c)

  run-IsCoherent :
      (es : List Event) (s : Session) → IsCoherent s → IsCoherent (run find_meta_error tx_hash es s)
  unfolding run
  run-IsCoherent [] s c = c
  run-IsCoherent (e ∷ es) s c = run-IsCoherent es _ (step-IsCoherent e s c)

  started-IsCoherent : IsCoherent started
  started-IsCoherent = record { reported = ((cc, cc), tt); closed = λ r e. cc }

  -- Every update that reaches the caller is one of signing, in block, finalized and error: never
  -- idle, never submitting. A promise that is settled has reported the update that closes it:
  -- finalized, with the block's hash, for a success, and error, with the message, for a failure.
  pub submit_transaction-IsCoherent :
      (wallet : Option (Option String)) (es : List Event)
      → IsCoherent (submit_transaction find_meta_error tx_hash wallet es)
  unfolding submit_transaction
  submit_transaction-IsCoherent none es = run-IsCoherent es started started-IsCoherent
  submit_transaction-IsCoherent (some reason) es =
      step-IsCoherent (rejected reason) started started-IsCoherent
