-- ===== src/Credential/Issue/Guarded.antt =====
-- What every operation of the wizard keeps.
use academic_verification.Prelude.{
  ◌≤◌, ◌<◌, ltb, eqb, String, Bool, true, false, not, ◌==◌, Option, none, some, List, [], ◌∷◌,
  Settled, ok, err, ◌≡◌, ◌≢◌, refl, arith, eq_iff, if◌then◌else◌, All, Among,
}
use academic_verification.Integration.Types.Laws.{enum_names}
use academic_verification.Chain.{Api, DidDocument}
use academic_verification.Queries.Real
use academic_verification.Credential.Issue.{
  IssueForm, Field, Document, IssueCredential, IssueState, show_recipient, search_recipient,
  handle_file_upload, hash_generated, next_step, prev_step, is_active, has_document, advance,
  fields_to_validate,
}

-- A transaction that names a document's hash and a type that the chain knows.
pub record IsIssuable (tx : IssueCredential) : Type 0 where
  pub hashed : tx.credential_hash ≢ ""
  pub typed : Among tx.credential_type enum_names

pub record IsGuarded (s : IssueState) : Type 0 where
  pub first : 1 ≤ s.step
  pub last : s.step ≤ 5
  pub recipient : 1 < s.step → is_active s.recipient_info ≡ true
  pub document : 4 < s.step → s.document_hash ≢ ""
  pub sent : All IsIssuable s.sent

-- A document's hash is not empty.
abbrev pub IsHash : Settled String → Type 0
IsHash (ok h) = h ≢ ""
IsHash (err m) = Unit

-- Another state that keeps what the invariant reads.
pub kept :
    (s t : IssueState)
    → IsGuarded s
    → s.step ≡ t.step
    → s.recipient_info ≡ t.recipient_info
    → s.document_hash ≡ t.document_hash
    → s.sent ≡ t.sent
    → IsGuarded t
kept s t g a b c d = record {
  first = rw (← a) g.first;
  last = rw (← a) g.last;
  recipient = λ k. rw (← b) (g.recipient (rw a k));
  document = λ k. rw (← c) (g.document (rw a k));
  sent = rw (← d) g.sent;
}

pub branch-IsGuarded :
    (b : Bool) (s t : IssueState)
    → (b ≡ true → IsGuarded s)
    → (b ≡ false → IsGuarded t)
    → IsGuarded (if b then s else t)
branch-IsGuarded true s t h k = h refl
branch-IsGuarded false s t h k = k refl

-- A state of the first step, which asks nothing of the recipient or the document.
pub at_first : (s t : IssueState) → IsGuarded s → t.step ≡ 1 → s.sent ≡ t.sent → IsGuarded t
at_first s t g a d = record {
  first = omega (arith, a);
  last = omega (arith, a);
  recipient = λ k. ground (arith, a);
  document = λ k. ground (arith, a);
  sent = rw (← d) g.sent;
}

show_recipient-step :
    (d : Option DidDocument) (s : IssueState)
    → ((show_recipient d s).step ≡ s.step) × ((show_recipient d s).sent ≡ s.sent)
unfolding show_recipient
show_recipient-step none s = (refl, refl)
show_recipient-step (some d) s = ground arith

pub search_recipient-step :
    (chain : Option Api) (s : IssueState)
    → ((search_recipient chain s).step ≡ s.step) × ((search_recipient chain s).sent ≡ s.sent)
unfolding search_recipient
search_recipient-step none s = ground arith
search_recipient-step (some api) s = ground (
  arith,
  show_recipient-step (Real.get_did api s.form.recipient_did) (record s { is_searching = true }),
)

pub handle_file_upload-IsGuarded :
    (d : Option Document) (s : IssueState) → IsGuarded s → IsGuarded (handle_file_upload d s)
unfolding handle_file_upload
handle_file_upload-IsGuarded none s g = g
handle_file_upload-IsGuarded (some d) s g =
    branch-IsGuarded (not (d.file_type == "application/pdf")) _ _
      (λ _. kept s _ g refl refl refl refl)
      (λ _.
        branch-IsGuarded (ltb 10485760 d.size) _ _ (λ _. kept s _ g refl refl refl refl)
          (λ _. kept s _ g refl refl refl refl))

pub hash_generated-IsGuarded :
    (h : Settled String) (s : IssueState) → IsHash h → IsGuarded s → IsGuarded (hash_generated h s)
unfolding hash_generated
hash_generated-IsGuarded (ok h) s k g = record {
  first = g.first;
  last = g.last;
  recipient = g.recipient;
  document = λ _. k;
  sent = g.sent;
}
hash_generated-IsGuarded (err m) s k g = kept s _ g refl refl refl refl

has_document-hash : (s : IssueState) → has_document s ≡ true → s.document_hash ≢ ""
has_document-hash s h = go s.uploaded_document h
  where
    go :
        (d : Option Document)
        → (elim d [ none ↦ false | some d ↦ not (s.document_hash == "") ]) ≡ true
        → s.document_hash ≢ ""
    go none h = cc
    go (some d) h = ground (arith, eq_iff s.document_hash "")

-- The next step, when what it asks for is there.
advance-IsGuarded :
    (b : Bool) (s : IssueState)
    → IsGuarded s
    → (b ≡ true → is_active s.recipient_info ≡ true)
    → (b ≡ true → 3 < s.step → s.document_hash ≢ "")
    → IsGuarded (advance b s)
advance-IsGuarded false s g r d = g
advance-IsGuarded true s g r d = record {
  first = ground (arith, g.first);
  last = ground arith;
  recipient = λ k. r refl;
  document = λ k. d refl (ground (arith, k));
  sent = g.sent;
}

pub prev_step-IsGuarded : (s : IssueState) → IsGuarded s → IsGuarded (prev_step s)
unfolding prev_step
prev_step-IsGuarded s g = record {
  first = ground arith;
  last = ground (arith, g.last);
  recipient = λ k. g.recipient (ground (arith, k));
  document = λ k. g.document (ground (arith, k));
  sent = g.sent;
}

advance_fields-IsGuarded :
    (trigger : List Field → IssueForm → Bool) (fields : List Field) (s : IssueState)
    → IsGuarded s
    → 1 < s.step
    → s.step ≢ 4
    → IsGuarded (elim fields [
      | [] ↦ advance true s
      | field ∷ more ↦ advance (trigger (field ∷ more) s.form) s
    ])
advance_fields-IsGuarded trigger [] s g a b =
    advance-IsGuarded true s g (λ _. g.recipient a) (λ _ k. g.document (ground (arith, k, b)))
advance_fields-IsGuarded trigger (field ∷ more) s g a b =
    advance-IsGuarded (trigger (field ∷ more) s.form) s g (λ _. g.recipient a)
      (λ _ k. g.document (ground (arith, k, b)))

pub next_step-IsGuarded :
    (trigger : List Field → IssueForm → Bool) (s : IssueState)
    → IsGuarded s
    → IsGuarded (next_step trigger s)
unfolding next_step
next_step-IsGuarded trigger s g =
    branch-IsGuarded (eqb s.step 1) _ _
      (λ one.
        branch-IsGuarded (is_active s.recipient_info) _ _
          (λ ready. advance-IsGuarded true s g (λ _. ready) (λ _ k. ground (arith, one, k)))
          (λ _. kept s _ g refl refl refl refl))
      (λ later.
        branch-IsGuarded (eqb s.step 4) _ _
          (λ four.
            branch-IsGuarded (has_document s) _ _
              (λ ready.
                advance-IsGuarded true s g (λ _. g.recipient (ground (arith, four)))
                  (λ _ _. has_document-hash s ready))
              (λ _. kept s _ g refl refl refl refl))
          (λ other.
            advance_fields-IsGuarded trigger (fields_to_validate s.step s.form.credential_type) s g
              (ground (arith, later, g.first)) (ground (arith, other))))
