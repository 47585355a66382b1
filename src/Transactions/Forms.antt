-- ===== src/Transactions/Forms.antt =====
-- The forms over `submitTransaction`: what the forms of
-- academic-verification-frontend/src/components/credentials/IssueCredentialForm.tsx and
-- academic-verification-frontend/src/components/did/CreateDIDForm.tsx await is the promise of
-- academic-verification-frontend/src/lib/blockchain/transactions.ts, for what the wallet and the chain
-- answer.
mod Tests
use academic_verification.Prelude.{
  ℕ, String, Bool, true, false, Option, none, some, List, [], ◌∷◌, ◌++◌, Settled, ok, err, eqb,
  arith, some-injective, ◌≡◌, ◌≢◌, refl, sym, ap, subst, ◌∙◌, inl, inr, All, Option-cases,
  Bool-cases, if◌then◌else◌,
}
use mathlib.Core.List.{append-nil}
use academic_verification.Integration.Types.{blockchain_type}
use academic_verification.Transactions.Submit.{TransactionResult, submit_transaction}
use academic_verification.Transactions.Submit.Outcome.{Split, submit_transaction-success}
use academic_verification.Transactions.Extrinsic
use academic_verification.Transactions.Extrinsic.{Submission}
use academic_verification.Transactions.Calls.{Network, run_submission, create_did}
use academic_verification.Credential.Issue.{
  IssueForm, Details, IssueCredential, IssueState, Node, ℤ, expiry_of, on_submit,
}
use academic_verification.Credential.Issue.Laws.{
  reported, on_submit_sends, on_submit_unknown, on_submit_early,
}
use academic_verification.Did.HexBytes.Laws.{IsByte, written}
use academic_verification.Did.Create
use academic_verification.Did.Create.{Answer, CreateState, GeneratedKeys}
use academic_verification.Did.Create.Laws

-- The chain of the issuing form, and the answer to the form that creates a DID.
abbrev pub node_of : Network → Settled ℕ → ℕ → Node
node_of n block_number now = record {
  block_number = block_number;
  now = now;
  submit = λ account tx.
      (run_submission n (record { signer = account; extrinsic = Extrinsic.issue tx })).outcome;
}

abbrev pub answer_of : Network → Submission → Answer
answer_of n s =
    let run = run_submission n s in record { updates = run.updates; result = run.outcome }

-- The events of a submission split at the result that makes it a success.
abbrev pub IsFinalized : Network → Submission → Type 0
IsFinalized n s =
    (r : TransactionResult) × Split n.find_meta_error (n.hash_of s.extrinsic) (n.answers s) r

-- A submission succeeds only if the wallet was reached.
succeeded_reached :
    (n : Network) (s : Submission) (r : TransactionResult)
    → (run_submission n s).outcome ≡ some r
    → r.success ≡ true
    → n.signer_error s.signer ≡ none
unfolding run_submission submit_transaction
succeeded_reached n s r o h = elim (Option-cases (n.signer_error s.signer)) [
  | inl reached ↦ reached
  | inr (reason, e) ↦ let failed = some-injective _ _ (rw e at o) in cc
]

succeeded-IsFinalized :
    (n : Network) (s : Submission) (r : TransactionResult)
    → (run_submission n s).outcome ≡ some r
    → r.success ≡ true
    → IsFinalized n s
unfolding run_submission
succeeded-IsFinalized n s r o h =
    let e = succeeded_reached n s r o h in
    (
      r,
      submit_transaction-success n.find_meta_error (n.hash_of s.extrinsic) (n.answers s) r
          (rw e at o) h,
    )

-- A list that has grown by what is reported.
reported-IsFinalized :
    (n : Network) (s : Submission) (before after : List String)
    → after ≡ before ++ reported (run_submission n s).outcome
    → after ≢ before
    → IsFinalized n s
reported-IsFinalized n s before after e grew = elim (Option-cases (run_submission n s).outcome) [
  | inl pending ↦ elim (grew (e ∙ ap (λ o. before ++ reported o) pending ∙ append-nil before)) [ ]
  | inr (r, settled) ↦ elim (Bool-cases r.success) [
    | inl good ↦ succeeded-IsFinalized n s r settled good
    | inr bad ↦
        let nothing : reported (some r) ≡ [] = rw bad refl in
        elim (grew (
          e
          ∙ ap (λ o. before ++ reported o) settled
          ∙ ap (λ l. before ++ l) nothing
          ∙ append-nil before)) [ ]
  ]
]

-- The transaction of a form, with its expiration.
abbrev pub issuance_of : (to_json : Details → String) → String → IssueState → Option ℤ → Submission
issuance_of to_json account s e = record {
  signer = account;
  extrinsic = Extrinsic.issue (record {
    holder = s.form.recipient_did;
    credential_hash = s.document_hash;
    credential_type = blockchain_type s.form.credential_type;
    metadata = to_json s.form.details;
    expires_at = e;
  });
}

last_step-IsFinalized :
    (to_json : Details → String) (n : Network) (block_number : Settled ℕ) (now : ℕ)
    (account : String) (s : IssueState) (r : Settled (Option ℤ))
    → s.step ≡ 5
    → expiry_of block_number now s.form.expiration_date ≡ r
    → (on_submit to_json (some (node_of n block_number now)) (some account) s).issued ≢ s.issued
    → (e : Option ℤ) × (expiry_of block_number now s.form.expiration_date ≡ ok e)
      × IsFinalized n (issuance_of to_json account s e)
last_step-IsFinalized to_json n block_number now account s (err m) five unknown grew =
    let same = on_submit_unknown to_json (node_of n block_number now) account m s five unknown in
    elim (grew same) [ ]
last_step-IsFinalized to_json n block_number now account s (ok e) five known grew =
    let (_, issued, _) =
      on_submit_sends to_json (node_of n block_number now) account s e five known in
    (e, known, reported-IsFinalized n _ s.issued _ issued grew)

-- Whatever the form holds, and whatever the wallet, the chain and the query of the current block
-- answer, a submission with an account adds to the credentials that the page reports as issued only if
-- the block of the expiration is known, or none is asked for, and the chain has finalized the
-- transaction of the form with it: the events split at a result that is finalized and carries no
-- dispatch error, and no event before it decides.
pub on_submit-IsFinalized :
    (to_json : Details → String) (n : Network) (block_number : Settled ℕ) (now : ℕ)
    (account : String) (s : IssueState)
    → (on_submit to_json (some (node_of n block_number now)) (some account) s).issued ≢ s.issued
    → (e : Option ℤ) × (expiry_of block_number now s.form.expiration_date ≡ ok e)
      × IsFinalized n (issuance_of to_json account s e)
on_submit-IsFinalized to_json n block_number now account s grew = elim (Bool-cases (eqb s.step 5)) [
  | inl last ↦
      last_step-IsFinalized to_json n block_number now account s _ (ground (arith, last)) refl grew
  | inr early ↦
      let same =
        on_submit_early to_json (some (node_of n block_number now)) (some account) s early in
      elim (grew (ap (λ t. t.issued) same)) [ ]
]

-- A confirmed form with a generated key of a page that is connected keeps another DID only if the
-- chain has finalized the transaction that registers the key.
pub on_submit-IsRegistered :
    (now : ℕ) (n : Network) (account : String) (s : CreateState) (keys : GeneratedKeys) (b : ℕ)
    (bs : List ℕ)
    → All IsByte (b ∷ bs)
    → keys.public_key ≡ written (b ∷ bs)
    → s.form.backup_confirmed ≡ true
    → s.generated_keys ≡ some keys
    → (Create.on_submit now (some (answer_of n)) (some account) s).did ≢ s.did
    → IsFinalized n (create_did account (b ∷ bs) s.form.key_type)
unfolding run_submission create_did
on_submit-IsRegistered now n account s keys b bs bytes as_text confirmed kept changed =
    let (_, a) =
      Laws.on_submit-IsAnswered now (answer_of n) account s keys b bs bytes as_text confirmed
        kept in
    let sub = create_did account (b ∷ bs) s.form.key_type in
    elim (Option-cases (run_submission n sub).outcome) [
      | inl pending ↦ elim (changed (a.failure (ap Laws.succeeded pending)).1) [ ]
      | inr (r, settled) ↦ elim (Bool-cases r.success) [
        | inl good ↦ succeeded-IsFinalized n sub r settled good
        | inr bad ↦ elim (changed (a.failure (ap Laws.succeeded settled ∙ bad)).1) [ ]
      ]
    ]
