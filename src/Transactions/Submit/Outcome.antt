-- ===== src/Transactions/Submit/Outcome.antt =====
-- What `submitTransaction` promises: the first event that decides settles the result.
use academic_verification.Prelude.{
  String, true, Option, none, some, List, [], ◌∷◌, ◌++◌, ok, err, get_or, if◌then◌else◌, ◌≡◌, refl,
  sym, ◌∙◌, arith, All, ap, some-injective, inl, inr, Option-cases,
}
use academic_verification.Transactions.Submit.{
  TransactionResult, SubmittableResult, Registry, Session, Event, returned, result, rejected,
  error_message, failure, success_in, step, run, started, submit_transaction,
}

module _ (find_meta_error : Registry) (tx_hash : String) where
  -- The result that one event decides, if it decides any: a dispatch error whose message can be
  -- read is a failure, even in a finalized block; a finalized block without one is a success; a
  -- rejection is a failure.
  abbrev pub verdict : Event → Option TransactionResult
  verdict returned = none
  verdict (rejected reason) = some (failure (get_or reason "Unknown error"))
  verdict (result r) = elim r.dispatch_error [
    | some e ↦ elim (error_message find_meta_error e) [ ok m ↦ some (failure m) | err _ ↦ none ]
    | none ↦ if r.is_finalized then some (success_in tx_hash r.as_finalized) else none
  ]

  abbrev pub first_some :
      Option TransactionResult → Option TransactionResult → Option TransactionResult
  first_some (some r) o = some r
  first_some none o = o

  abbrev pub first_verdict : List Event → Option TransactionResult
  first_verdict [] = none
  first_verdict (e ∷ es) = let rest = first_verdict es in first_some (verdict e) rest

  pub step-outcome :
      (e : Event) (s : Session)
      → (step find_meta_error tx_hash e s).outcome ≡ first_some s.outcome (verdict e)
  unfolding step error_message
  step-outcome returned s = ground arith
  step-outcome (rejected reason) s = ground arith
  step-outcome (result r) s = ground arith

  first_some_assoc :
      (a b c : Option TransactionResult)
      → first_some (first_some a b) c ≡ first_some a (first_some b c)
  first_some_assoc none b c = refl
  first_some_assoc (some r) b c = refl

  pub run-outcome :
      (es : List Event) (s : Session)
      → (run find_meta_error tx_hash es s).outcome ≡ first_some s.outcome (first_verdict es)
  unfolding run
  run-outcome [] s = ground arith
  run-outcome (e ∷ es) s =
      run-outcome es (step find_meta_error tx_hash e s)
      ∙ ap (λ o. first_some o (first_verdict es)) (step-outcome e s)
      ∙ first_some_assoc s.outcome (verdict e) (first_verdict es)

  -- Once the wallet has answered, the promise is settled by the first event that decides, whatever
  -- comes before and after it, and stays pending exactly if no event decides; if the wallet cannot
  -- be reached, it is settled as a failure.
  pub submit_transaction-outcome :
      (wallet : Option (Option String)) (es : List Event)
      → (submit_transaction find_meta_error tx_hash wallet es).outcome ≡ elim wallet [
        | none ↦ first_verdict es
        | some reason ↦ some (failure (get_or reason "Unknown error"))
      ]
  unfolding submit_transaction
  submit_transaction-outcome none es = run-outcome es started
  submit_transaction-outcome (some reason) es = refl

  -- The events before the first one that decides, that one, and those after it.
  pub record Split (es : List Event) (r : TransactionResult) : Type 0 where
    pub before : List Event
    pub deciding : SubmittableResult
    pub after : List Event
    pub parts : es ≡ before ++ result deciding ∷ after
    pub undecided : All (λ e. verdict e ≡ none) before
    pub finalized : deciding.is_finalized ≡ true
    pub no_error : deciding.dispatch_error ≡ none
    pub as_success : r ≡ success_in tx_hash deciding.as_finalized

  verdict_success :
      (e : Event) (r : TransactionResult)
      → verdict e ≡ some r
      → r.success ≡ true
      → (d : SubmittableResult) × (e ≡ result d)
        × (d.is_finalized ≡ true)
        × (d.dispatch_error ≡ none)
        × (r ≡ success_in tx_hash d.as_finalized)
  unfolding error_message
  verdict_success returned r e h = cc
  verdict_success (rejected m) r e h = ground arith
  verdict_success (result d) r e h = (d, refl, ground arith, ground arith, ground arith)

  first_verdict_success :
      (es : List Event) (r : TransactionResult)
      → first_verdict es ≡ some r
      → r.success ≡ true
      → Split es r
  first_verdict_success [] r e h = cc
  first_verdict_success (x ∷ es) r e h = elim (Option-cases (verdict x)) [
    | inl none_yet ↦
        let later = first_verdict_success es r (rw none_yet at e) h in
        record {
          before = x ∷ later.before;
          deciding = later.deciding;
          after = later.after;
          parts = ap (λ l. x ∷ l) later.parts;
          undecided = (none_yet, later.undecided);
          finalized = later.finalized;
          no_error = later.no_error;
          as_success = later.as_success;
        }
    | inr (r', now) ↦
        let same = some-injective r' r (rw now at e) in
        let (d, here, f, n, q) = verdict_success x r (now ∙ ap some same) h in
        record {
          before = [];
          deciding = d;
          after = es;
          parts = ap (λ y. y ∷ es) here;
          undecided = tt;
          finalized = f;
          no_error = n;
          as_success = q;
        }
  ]

  -- A success is reported only for a result that is finalized and carries no dispatch error, with
  -- that block's hash and the transaction's, and no earlier event had decided otherwise.
  pub submit_transaction-success :
      (es : List Event) (r : TransactionResult)
      → (submit_transaction find_meta_error tx_hash none es).outcome ≡ some r
      → r.success ≡ true
      → Split es r
  submit_transaction-success es r e h =
      first_verdict_success es r (sym (submit_transaction-outcome none es) ∙ e) h
