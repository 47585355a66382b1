-- ===== src/Did/Registration/Laws.antt =====
-- What a submission of the wizard comes to.
use academic_verification.Prelude.{
  ◌+◌, eqb, String, Bool, true, false, Option, none, some, List, [], ◌∷◌, ◌++◌, ◌≡◌, refl, sym,
  subst, ◌∙◌, ap, inl, inr, arith, Bool-cases, if◌then◌else◌,
}
use academic_verification.Store.Did.{set_institution}
use academic_verification.Transactions.Submit.{TransactionResult, TransactionStatus}
use academic_verification.Transactions.Extrinsic.{Submission}
use academic_verification.Transactions.Calls.{register_institution}
use academic_verification.Did.Create.{Answer}
use academic_verification.Did.Registration.{
  RegistrationState, report_status, answered, send, on_submit,
}

abbrev pub is_success : Option TransactionResult → Bool
is_success none = false
is_success (some r) = r.success

abbrev pub is_pending : Option TransactionResult → Bool
is_pending none = true
is_pending (some r) = false

-- What a submission leaves alone.
pub record IsKept (s t : RegistrationState) : Type 0 where
  pub step : t.step ≡ s.step
  pub docs : t.uploaded_docs ≡ s.uploaded_docs
  pub hashes : t.doc_hashes ≡ s.doc_hashes

-- What the wizard makes of the end of a promise.
pub record IsReported (name : String) (r : Option TransactionResult) (s t : RegistrationState)
    : Type 0 where
  pub kept : IsKept s t
  pub sent : t.sent ≡ s.sent
  pub registered : t.registered ≡ s.registered + (if is_success r then 1 else 0)
  pub did : t.did ≡ (if is_success r then set_institution name s.did else s.did)
  pub busy : t.is_submitting ≡ is_pending r

answered-IsReported :
    (name : String) (r : Option TransactionResult) (s : RegistrationState)
    → s.is_submitting ≡ true
    → IsReported name r s (answered name r s)
unfolding answered
answered-IsReported name none s e = record {
  kept = record { step = refl; docs = refl; hashes = refl };
  sent = refl;
  registered = omega arith;
  did = refl;
  busy = e;
}
answered-IsReported name (some r) s e = elim (Bool-cases r.success) [
  | inl good ↦ rw good (record {
    kept = record { step = refl; docs = refl; hashes = refl };
    sent = refl;
    registered = refl;
    did = refl;
    busy = refl;
  })
  | inr bad ↦ rw bad (record {
    kept = record { step = refl; docs = refl; hashes = refl };
    sent = refl;
    registered = omega arith;
    did = refl;
    busy = refl;
  })
]

report_status-eq :
    (us : List TransactionStatus) (s : RegistrationState)
    → report_status us s ≡ record s { tx_status = (report_status us s).tx_status }
unfolding report_status
report_status-eq [] s = refl
report_status-eq (u ∷ us) s = report_status-eq us (record s { tx_status = u.message })

pub send-IsReported :
    (call : Submission → Answer) (account : String) (s : RegistrationState)
    → let tx = register_institution account s.form.name in
      IsReported s.form.name
        (call tx).result
        (record s { sent = s.sent ++ tx ∷ [] })
        (send call account s)
unfolding send
send-IsReported call account s =
    let tx = register_institution account s.form.name in
    let s' = record s { is_submitting = true; sent = s.sent ++ tx ∷ [] } in
    let t = report_status (call tx).updates s' in
    let a =
      answered-IsReported s.form.name (call tx).result (record s' { tx_status = t.tx_status })
        refl in
    rw (report_status-eq (call tx).updates s') (record {
      kept = record { step = a.kept.step; docs = a.kept.docs; hashes = a.kept.hashes };
      sent = a.sent;
      registered = a.registered;
      did = a.did;
      busy = a.busy;
    })

-- In the last step of a connected wizard the submission sends one transaction, signed by the account
-- and with the name of the form; the registration is reported, and the DID store takes the user for
-- an institution of that name, exactly if the promise is settled as a success, and the wizard stays
-- in the state of submitting exactly if it stays pending.
pub on_submit-IsReported :
    (call : Submission → Answer) (account : String) (s : RegistrationState)
    → s.step ≡ 4
    → let tx = register_institution account s.form.name in
      IsReported s.form.name
        (call tx).result
        (record s { sent = s.sent ++ tx ∷ [] })
        (on_submit (some call) (some account) s)
unfolding on_submit
on_submit-IsReported call account s e =
    subst (IsReported _ _ _) (sym (ap (λ n. if eqb n 4 then send call account s else s) e))
      (send-IsReported call account s)

-- The documents, their hashes and all values of the form but the name change nothing of what is sent.
pub on_submit-name :
    (call : Option (Submission → Answer)) (account : Option String) (s t : RegistrationState)
    → s.step ≡ t.step
    → s.form.name ≡ t.form.name
    → s.sent ≡ t.sent
    → (on_submit call account s).sent ≡ (on_submit call account t).sent
unfolding on_submit
on_submit-name none account s t e n k = ground (arith, e, k)
on_submit-name (some call) none s t e n k = ground (arith, e, k)
on_submit-name (some call) (some account) s t e n k =
    let a = send-IsReported call account s in
    let b = send-IsReported call account t in
    let c =
      a.sent
      ∙ ap (λ x. x ++ register_institution account s.form.name ∷ []) k
      ∙ ap (λ m. t.sent ++ register_institution account m ∷ []) n
      ∙ sym b.sent in
    ground (arith, e, k, c)
