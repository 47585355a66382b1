-- ===== src/Credential/Issue/Laws.antt =====
-- What the form sends.
use mathlib.Core.List.{append-nil}
use academic_verification.Prelude.{
  sym, Bool-cases, ℕ, String, Bool, true, false, not, Option, none, some, List, [], ◌∷◌, ◌++◌,
  Settled, ok, err, ◌≡◌, refl, inl, inr, eqb, str_or, if◌then◌else◌,
}
use academic_verification.Integration.Types.{blockchain_type}
use academic_verification.Transactions.Submit.{TransactionResult}
use academic_verification.Credential.Issue.{
  Details, IssueCredential, IssueState, Node, ℤ, expiry_of, issue_credential, on_submit,
  submit_form, prepare, send, use_result, fail,
}

-- What a settled promise adds to the credentials that the page reports as issued.
abbrev pub reported : Option TransactionResult → List String
reported none = []
reported (some r) = if r.success then str_or r.transaction_hash "unknown" ∷ [] else []

abbrev pub is_pending : Option TransactionResult → Bool
is_pending none = true
is_pending (some r) = false

-- What the page makes of the answer.
abbrev answer : Option TransactionResult → IssueState → IssueState
answer none s = s
answer (some r) s = use_result r s

answer_lem :
    (o : Option TransactionResult) (s : IssueState)
    → s.is_submitting ≡ true
    → let t = answer o s in
      (t.sent ≡ s.sent) × (t.issued ≡ s.issued ++ reported o) × (t.is_submitting ≡ is_pending o)
unfolding use_result fail
answer_lem none s e = (refl, sym (append-nil s.issued), e)
answer_lem (some r) s e = elim (Bool-cases r.success) [
  | inl succeeded ↦ rw succeeded (refl, refl, refl)
  | inr failed ↦ rw failed (refl, sym (append-nil s.issued), refl)
]

abbrev sent_by : Settled IssueCredential → List IssueCredential
sent_by (err m) = []
sent_by (ok t) = t ∷ []

send-answer :
    (n : Node) (account : String) (tx : IssueCredential) (s : IssueState)
    → s.is_submitting ≡ true
    → let t = send n account (ok tx) s in
      (t.sent ≡ s.sent ++ tx ∷ [])
      × (t.issued ≡ s.issued ++ reported (n.submit account tx))
      × (t.is_submitting ≡ is_pending (n.submit account tx))
unfolding send
send-answer n account tx s e = go (n.submit account tx)
  where
    s' : IssueState
    s' = record s { sent = s.sent ++ tx ∷ [] }

    go :
        (o : Option TransactionResult)
        → let t = elim o as (λ _. IssueState) [ none ↦ s' | some r ↦ use_result r s' ] in
          (t.sent ≡ s'.sent)
          × (t.issued ≡ s.issued ++ reported o)
          × (t.is_submitting ≡ is_pending o)
    go none = answer_lem none s' e
    go (some r) = answer_lem (some r) s' e

pub send-sent :
    (n : Node) (account : String) (tx : Settled IssueCredential) (s : IssueState)
    → s.is_submitting ≡ true
    → (send n account tx s).sent ≡ s.sent ++ sent_by tx
unfolding send fail
send-sent n account (err m) s e = sym (append-nil s.sent)
send-sent n account (ok tx) s e = (send-answer n account tx s e).0

unless_last : {A : Type 0} (k : ℕ) (a b : A) → k ≡ 5 → (if not (eqb k 5) then a else b) ≡ b
unless_last k a b e = rw e refl

on_submit-last :
    (to_json : Details → String) (n : Node) (account : String) (s : IssueState)
    → s.step ≡ 5
    → on_submit to_json (some n) (some account) s
      ≡ send n account (prepare to_json n s) (record s { is_submitting = true })
unfolding on_submit submit_form prepare
on_submit-last to_json n account s e = unless_last s.step _ _ e

prepare-known :
    (to_json : Details → String) (n : Node) (s : IssueState) (e : Option ℤ)
    → expiry_of n.block_number n.now s.form.expiration_date ≡ ok e
    → prepare to_json n s
      ≡ ok (
          issue_credential s.form.recipient_did s.document_hash s.form.credential_type
            (to_json s.form.details)
            e)
unfolding prepare
prepare-known to_json n s e known = rw known refl

-- In the last step of a connected form, when the block number is known or not needed, one
-- transaction is sent, for the recipient, the hash and the type of the form; the page reports it as
-- issued exactly if its promise is settled as a success, and stays in the state of submitting
-- exactly if the promise stays pending.
pub on_submit_sends :
    (to_json : Details → String) (n : Node) (account : String) (s : IssueState) (e : Option ℤ)
    → s.step ≡ 5
    → expiry_of n.block_number n.now s.form.expiration_date ≡ ok e
    → let t = on_submit to_json (some n) (some account) s in
      let tx : IssueCredential = record {
        holder = s.form.recipient_did;
        credential_hash = s.document_hash;
        credential_type = blockchain_type s.form.credential_type;
        metadata = to_json s.form.details;
        expires_at = e;
      } in
      (t.sent ≡ s.sent ++ tx ∷ [])
      × (t.issued ≡ s.issued ++ reported (n.submit account tx))
      × (t.is_submitting ≡ is_pending (n.submit account tx))
unfolding issue_credential
on_submit_sends to_json n account s e five known =
    rw (on_submit-last to_json n account s five, prepare-known to_json n s e known)
      (send-answer n account _ (record s { is_submitting = true }) refl)

prepare_unknown :
    (to_json : Details → String) (n : Node) (s : IssueState) (m : String)
    → expiry_of n.block_number n.now s.form.expiration_date ≡ err m
    → prepare to_json n s ≡ err m
unfolding prepare
prepare_unknown to_json n s m unknown = rw unknown refl

-- A submission for which the query of the current block fails reports nothing as issued, and one
-- before the last step does nothing.
pub on_submit_unknown :
    (to_json : Details → String) (n : Node) (account m : String) (s : IssueState)
    → s.step ≡ 5
    → expiry_of n.block_number n.now s.form.expiration_date ≡ err m
    → (on_submit to_json (some n) (some account) s).issued ≡ s.issued
unfolding send fail
on_submit_unknown to_json n account m s five unknown =
    rw (on_submit-last to_json n account s five, prepare_unknown to_json n s m unknown) refl

pub on_submit_early :
    (to_json : Details → String) (node : Option Node) (account : Option String) (s : IssueState)
    → eqb s.step 5 ≡ false
    → on_submit to_json node account s ≡ s
unfolding on_submit
on_submit_early to_json chain account s early = rw early refl
