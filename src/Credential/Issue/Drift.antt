-- ===== src/Credential/Issue/Drift.antt =====
-- What the form does not notice, and does not send.
use academic_verification.Prelude.{
  sym, Bool-cases, String, true, Option, none, some, [], ◌∷◌, ◌++◌, ◌≡◌, ◌==◌, refl, ◌∙◌, ap, inl,
  inr, eqb,
}
use academic_verification.Integration.Types.{blockchain_type}
use academic_verification.Credential.Issue.{
  IssueForm, Details, IssueState, Node, expiry_of, on_submit, submit_form, prepare, fail, next_step,
  is_active, has_document,
}
use academic_verification.Credential.Issue.Laws.{send-sent, on_submit_sends}

submit_form_drops :
    (to_json : Details → String) (node : Option Node) (account : Option String) (s : IssueState)
    (custom : Option String) (issued_on : String)
    → let f = record s.form { custom_type = custom; issue_date = issued_on } in
      (submit_form to_json node account (record s { form = f; is_submitting = true })).sent
      ≡ (submit_form to_json node account (record s { is_submitting = true })).sent
unfolding submit_form prepare fail
submit_form_drops to_json none account s custom issued_on = refl
submit_form_drops to_json (some n) none s custom issued_on = refl
submit_form_drops to_json (some n) (some a) s custom issued_on =
    let tx = prepare to_json n s in
    let f = record s.form { custom_type = custom; issue_date = issued_on } in
    send-sent n a tx (record s { form = f; is_submitting = true }) refl
    ∙ sym (send-sent n a tx (record s { is_submitting = true }) refl)

-- The custom type and the issue date that the form asks for change nothing of what is sent.
pub on_submit_drops :
    (to_json : Details → String) (node : Option Node) (account : Option String) (s : IssueState)
    (custom : Option String) (issued_on : String)
    → let f = record s.form { custom_type = custom; issue_date = issued_on } in
      (on_submit to_json node account (record s { form = f })).sent
      ≡ (on_submit to_json node account s).sent
unfolding on_submit
on_submit_drops to_json node account s custom issued_on = elim (Bool-cases (eqb s.step 5)) [
  | inl last ↦ rw last (submit_form_drops to_json node account s custom issued_on)
  | inr before ↦ rw before refl
]

-- How `Next` moves a form that passes the validation.
module _ (s : IssueState) where
  next_step_from_1 :
      s.step ≡ 1
      → is_active s.recipient_info ≡ true
      → next_step (λ fields form. true) s ≡ record s { step = 2 }
  unfolding next_step
  next_step_from_1 e r = rw (e, r) refl

  next_step_from_4 :
      s.step ≡ 4 → has_document s ≡ true → next_step (λ fields form. true) s ≡ record s { step = 5 }
  unfolding next_step
  next_step_from_4 e r = rw (e, r) refl

  next_step_from_2 : next_step (λ fields form. true) (record s { step = 2 }) ≡ record s { step = 3 }
  unfolding next_step
  next_step_from_2 = elim (Bool-cases (s.form.credential_type == "Other")) [
    | inl other ↦ rw other refl
    | inr known ↦ rw known refl
  ]

  next_step_from_3 : next_step (λ fields form. true) (record s { step = 3 }) ≡ record s { step = 4 }
  unfolding next_step
  next_step_from_3 = refl

-- From the first step, after a search that found an active recipient, with a document and values
-- that pass the validation, a change of the recipient is not noticed: four times `Next` and the
-- submission of a connected form, with no expiration date, send a transaction for the new recipient.
pub on_submit_unsearched :
    (to_json : Details → String) (n : Node) (account : String) (s : IssueState) (f : IssueForm)
    → s.step ≡ 1
    → is_active s.recipient_info ≡ true
    → has_document s ≡ true
    → f.expiration_date ≡ none
    → let next = next_step (λ fields form. true) in
      let t = next (next (next (next (record s { form = f })))) in
      (on_submit to_json (some n) (some account) t).sent
      ≡ s.sent
        ++ record {
          holder = f.recipient_did;
          credential_hash = s.document_hash;
          credential_type = blockchain_type f.credential_type;
          metadata = to_json f.details;
          expires_at = none;
        }
          ∷ []
unfolding expiry_of
on_submit_unsearched to_json n account s f one ready there unlimited =
    let s₁ = record s { form = f } in
    let step = next_step (λ fields form. true) in
    let moved : step (step (step (step s₁))) ≡ record s₁ { step = 5 } =
      ap (λ t. step (step (step t))) (next_step_from_1 s₁ one ready)
      ∙ ap (λ t. step (step t)) (next_step_from_2 s₁)
      ∙ ap (λ t. step t) (next_step_from_3 s₁)
      ∙ next_step_from_4 (record s₁ { step = 4 }) refl there in
    ap (λ t. (on_submit to_json (some n) (some account) t).sent) moved
    ∙ (on_submit_sends to_json n account (record s₁ { step = 5 }) none refl
        (ap (expiry_of n.block_number n.now) unlimited)).0
