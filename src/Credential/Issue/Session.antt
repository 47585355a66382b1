-- ===== src/Credential/Issue/Session.antt =====
-- The wizard over a sequence of operations. The page shows the search in the first step and the
-- upload in the fourth, `Next` before the last step and `Previous` after the first; the values of
-- the form can be any, and the hash of a document may come at any time.
use academic_verification.Prelude.{
  ltb, eqb, String, Bool, Option, List, Settled, refl, sym, arith, if◌then◌else◌,
}
use academic_verification.Chain.{Api}
use academic_verification.Credential.Issue.{
  IssueForm, Details, Field, Document, IssueState, Node, initial, search_recipient,
  handle_file_upload, hash_generated, next_step, prev_step, on_submit,
}
use academic_verification.Credential.Issue.Guarded.{
  IsGuarded, IsHash, kept, branch-IsGuarded, at_first, search_recipient-step,
  handle_file_upload-IsGuarded, hash_generated-IsGuarded, prev_step-IsGuarded, next_step-IsGuarded,
}
use academic_verification.Credential.Issue.Sending.{on_submit-IsGuarded}

pub data Action : Type 0 where
  edit : IssueForm → Action
  search : Option Api → Action
  upload : Option Document → Action
  hashed : Settled String → Action
  next : (List Field → IssueForm → Bool) → Action
  previous : Action
  submit : Option Node → Option String → Action

abbrev pub IsPossible : Action → Type 0
IsPossible (hashed h) = IsHash h
IsPossible a = Unit

module _ (to_json : Details → String) where
  unfoldable pub perform : Action → IssueState → IssueState
  unfolding search_recipient handle_file_upload hash_generated next_step prev_step on_submit
  perform (edit f) s = record s { form = f }
  perform (search chain) s = if eqb s.step 1 then search_recipient chain s else s
  perform (upload d) s = if eqb s.step 4 then handle_file_upload d s else s
  perform (hashed h) s = hash_generated h s
  perform (next trigger) s = if ltb s.step 5 then next_step trigger s else s
  perform previous s = if ltb 1 s.step then prev_step s else s
  perform (submit node account) s = on_submit to_json node account s

  -- What the operations lead to, from an empty form.
  pub data Reach : IssueState → Type 0 where
    start : (f : IssueForm) → Reach (initial f)
    go : (a : Action) (s : IssueState) → IsPossible a → Reach s → Reach (perform a s)

module _ (to_json : Details → String) where
  perform-IsGuarded :
      (a : Action) (s : IssueState) → IsPossible a → IsGuarded s → IsGuarded (perform to_json a s)
  unfolding perform
  perform-IsGuarded (edit f) s h g = kept s _ g refl refl refl refl
  perform-IsGuarded (search chain) s h g =
      branch-IsGuarded (eqb s.step 1) _ _
        (λ one.
          let (a, d) = search_recipient-step chain s in
          at_first s (search_recipient chain s) g (ground (arith, a, one)) (sym d))
        (λ _. g)
  perform-IsGuarded (upload d) s h g =
      branch-IsGuarded (eqb s.step 4) _ _ (λ _. handle_file_upload-IsGuarded d s g) (λ _. g)
  perform-IsGuarded (hashed k) s h g = hash_generated-IsGuarded k s h g
  perform-IsGuarded (next trigger) s h g =
      branch-IsGuarded (ltb s.step 5) _ _ (λ _. next_step-IsGuarded trigger s g) (λ _. g)
  perform-IsGuarded previous s h g =
      branch-IsGuarded (ltb 1 s.step) _ _ (λ _. prev_step-IsGuarded s g) (λ _. g)
  perform-IsGuarded (submit node account) s h g = on_submit-IsGuarded to_json node account s g

  -- In every state that the wizard leads to, in any order of operations and whatever the chain, the
  -- form library and the wallet answer, as long as no hash that is generated is empty, the step is
  -- one of the five, a search has found an active recipient beyond the first step, a hash is kept
  -- in the last one, and each transaction that was sent names a hash and a type that the chain knows.
  pub Reach-IsGuarded : (s : IssueState) → Reach to_json s → IsGuarded s
  unfolding initial
  Reach-IsGuarded s (start f) = record {
    first = omega arith;
    last = omega arith;
    recipient = λ k. ground (arith, k);
    document = λ k. ground (arith, k);
    sent = tt;
  }
  Reach-IsGuarded s (go a s₀ p r) = perform-IsGuarded a s₀ p (Reach-IsGuarded s₀ r)
