-- ===== src/Credential/Issue/Sending.antt =====
-- What the submission of the wizard keeps.
use academic_verification.Prelude.{
  subst, >>=-eq-ok, ok-injective, eqb, String, not, Option, none, some, [], ◌∷◌, ◌++◌, Settled, ok,
  err, ◌>>=◌, ◌≡◌, ◌≢◌, refl, ◌∙◌, ap, arith, All-append, Among,
}
use academic_verification.Integration.Types.Laws.{blockchain_type-enum, enum_names}
use academic_verification.Transactions.Submit.{TransactionResult}
use academic_verification.Credential.Issue.{
  Details, IssueCredential, IssueState, Node, ℤ, on_submit, submit_form, prepare, send, use_result,
  fail, issue_credential, expiry_of,
}
use academic_verification.Credential.Issue.Guarded.{IsIssuable, IsGuarded, kept, branch-IsGuarded}

use_result-IsGuarded :
    (r : TransactionResult) (s : IssueState) → IsGuarded s → IsGuarded (use_result r s)
unfolding use_result fail
use_result-IsGuarded r s g =
    branch-IsGuarded r.success _ _ (λ _. kept s _ g refl refl refl refl)
      (λ _. kept s _ g refl refl refl refl)

send-IsGuarded :
    (node : Node) (account : String) (tx : Settled IssueCredential) (s : IssueState)
    → IsGuarded s
    → ((t : IssueCredential) → tx ≡ ok t → IsIssuable t)
    → IsGuarded (send node account tx s)
unfolding send fail
send-IsGuarded node account (err m) s g i = kept s _ g refl refl refl refl
send-IsGuarded node account (ok tx) s g i = go (node.submit account tx)
  where
    s' : IssueState
    s' = record s { sent = s.sent ++ tx ∷ [] }

    more : IsGuarded s'
    more = record {
      first = g.first;
      last = g.last;
      recipient = g.recipient;
      document = g.document;
      sent = All-append IsIssuable s.sent (tx ∷ []) g.sent (i tx refl, tt);
    }

    go :
        (answer : Option TransactionResult)
        → IsGuarded (elim answer [ none ↦ s' | some r ↦ use_result r s' ])
    go none = more
    go (some r) = use_result-IsGuarded r s' more

issue_credential-IsIssuable :
    (holder hash type metadata : String) (expires : Settled (Option ℤ)) (t : IssueCredential)
    → hash ≢ ""
    → (expires >>= λ e. ok (issue_credential holder hash type metadata e)) ≡ ok t
    → IsIssuable t
unfolding issue_credential
issue_credential-IsIssuable holder hash type metadata expires t h e =
    let (at, known, same) = >>=-eq-ok expires _ t e in
    let tx = ok-injective _ t same in
    record {
      hashed = λ empty. h (ap (λ (x : IssueCredential). x.credential_hash) tx ∙ empty);
      typed =
          subst (λ n. Among n enum_names) (ap (λ (x : IssueCredential). x.credential_type) tx)
            (blockchain_type-enum type).0;
    }

pub on_submit-IsGuarded :
    (to_json : Details → String) (node : Option Node) (account : Option String) (s : IssueState)
    → IsGuarded s
    → IsGuarded (on_submit to_json node account s)
unfolding on_submit submit_form prepare fail
on_submit-IsGuarded to_json none account s g =
    branch-IsGuarded (not (eqb s.step 5)) _ _ (λ _. g) (λ _. kept s _ g refl refl refl refl)
on_submit-IsGuarded to_json (some n) none s g =
    branch-IsGuarded (not (eqb s.step 5)) _ _ (λ _. g) (λ _. kept s _ g refl refl refl refl)
on_submit-IsGuarded to_json (some n) (some a) s g =
    branch-IsGuarded (not (eqb s.step 5)) _ _ (λ _. g)
      (λ five. send-IsGuarded n a _ _ (kept s _ g refl refl refl refl) (λ t e.
        issue_credential-IsIssuable s.form.recipient_did s.document_hash s.form.credential_type
          (to_json s.form.details) (expiry_of n.block_number n.now s.form.expiration_date) t
          (g.document (ground (arith, five))) e))
