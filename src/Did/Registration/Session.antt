-- ===== src/Did/Registration/Session.antt =====
-- The wizard over a sequence of operations: `Next` is shown before the last step, `Previous` after the
-- first.
use academic_verification.Prelude.{
  ℕ, ◌+◌, ◌≤◌, ltb, eqb, String, Bool, true, false, Option, none, some, List, [], ◌∷◌, length,
  length-append, filter, ◌≡◌, refl, sym, subst, ◌∙◌, ap, arith, All, All-append, if◌then◌else◌,
}
use academic_verification.Store.Did.{DidState}
use academic_verification.Transactions.Extrinsic.{Submission}
use academic_verification.Transactions.Calls.{register_institution}
use academic_verification.Provider.Wallet.{Toast}
use academic_verification.Did.Create.{Answer}
use academic_verification.Did.Registration.{
  RegistrationState, InstitutionForm, FormField, UploadedFile, initial, is_pdf, generate_file_hash,
  handle_file_upload, remove_document, fields_to_validate, next_step, prev_step, send, on_submit,
}
use academic_verification.Did.Registration.Documents.{
  filter-all, paired-append, without_index-paired, without_index-All,
}
use academic_verification.Did.Registration.Laws.{is_success, send-IsReported}

-- The step is one of the four, each document that is kept is a PDF and has a hash, and no
-- registration is reported that was not sent.
pub record IsWell (s : RegistrationState) : Type 0 where
  pub first : 1 ≤ s.step
  pub last : s.step ≤ 4
  pub paired : length s.doc_hashes ≡ length s.uploaded_docs
  pub documents : All (λ f. is_pdf f ≡ true) s.uploaded_docs
  pub reported : s.registered ≤ length s.sent

pub data Action : Type 0 where
  edit : InstitutionForm → Action
  upload : (UploadedFile → String) → List UploadedFile → Action
  remove : ℕ → Action
  next : (List FormField → InstitutionForm → Bool) → Action
  previous : Action
  submit : Option (Submission → Answer) → Option String → Action

unfoldable pub perform : Action → RegistrationState → RegistrationState
unfolding handle_file_upload remove_document next_step prev_step on_submit
perform (edit f) s = record s { form = f }
perform (upload digits fs) s = handle_file_upload digits fs s
perform (remove index) s = remove_document index s
perform (next trigger) s = if ltb s.step 4 then next_step trigger s else s
perform previous s = if ltb 1 s.step then prev_step s else s
perform (submit call account) s = on_submit call account s

unfoldable pub perform_all : List Action → RegistrationState → RegistrationState
perform_all [] s = s
perform_all (a ∷ as') s = perform_all as' (perform a s)

branch-IsWell :
    (b : Bool) (s t : RegistrationState) → IsWell s → IsWell t → IsWell (if b then s else t)
branch-IsWell true s t g h = g
branch-IsWell false s t g h = h

handle_file_upload-IsWell :
    (digits : UploadedFile → String) (fs : List UploadedFile) (s : RegistrationState)
    → IsWell s
    → IsWell (handle_file_upload digits fs s)
unfolding handle_file_upload
handle_file_upload-IsWell digits [] s g = g
handle_file_upload-IsWell digits (f ∷ fs) s g =
    branch-IsWell (eqb (length (filter is_pdf (f ∷ fs))) (length (f ∷ fs))) _ _
      (record {
        first = g.first;
        last = g.last;
        paired =
            paired-append (λ d. generate_file_hash (digits d) d) s.doc_hashes s.uploaded_docs
              (filter is_pdf (f ∷ fs)) g.paired;
        documents = All-append _ s.uploaded_docs _ g.documents (filter-all is_pdf (f ∷ fs));
        reported = g.reported;
      })
      (record {
        first = g.first;
        last = g.last;
        paired = g.paired;
        documents = g.documents;
        reported = g.reported;
      })

counted :
    (good : Bool) (before after : ℕ) (sent : List Submission) {sent_after : ℕ}
    → before ≤ length sent
    → after ≡ before + (if good then 1 else 0)
    → sent_after ≡ length sent + 1
    → after ≤ sent_after
counted good before after sent h e k = ground (arith, h, e, k)

toasted : (ts : List Toast) (s : RegistrationState) → IsWell s → IsWell (record s { toasts = ts })
toasted ts s g = record {
  first = g.first;
  last = g.last;
  paired = g.paired;
  documents = g.documents;
  reported = g.reported;
}

send-IsWell :
    (call : Submission → Answer) (account : String) (s : RegistrationState)
    → IsWell s
    → IsWell (send call account s)
send-IsWell call account s g =
    let a = send-IsReported call account s in
    record {
      first = omega (arith, a.kept.step, g.first);
      last = omega (arith, a.kept.step, g.last);
      paired = ap length a.kept.hashes ∙ g.paired ∙ sym (ap length a.kept.docs);
      documents = subst (All (λ f. is_pdf f ≡ true)) (sym a.kept.docs) g.documents;
      reported =
          counted (is_success (call (register_institution account s.form.name)).result) _ _ s.sent
            g.reported a.registered (ap length a.sent ∙ length-append s.sent _);
    }

on_submit-IsWell :
    (call : Option (Submission → Answer)) (account : Option String) (s : RegistrationState)
    → IsWell s
    → IsWell (on_submit call account s)
unfolding on_submit
on_submit-IsWell none account s g = branch-IsWell (eqb s.step 4) _ _ (toasted _ s g) g
on_submit-IsWell (some call) none s g = branch-IsWell (eqb s.step 4) _ _ (toasted _ s g) g
on_submit-IsWell (some call) (some account) s g =
    branch-IsWell (eqb s.step 4) _ _ (send-IsWell call account s g) g

remove_document-IsWell : (n : ℕ) (s : RegistrationState) → IsWell s → IsWell (remove_document n s)
unfolding remove_document
remove_document-IsWell n s g = record {
  first = g.first;
  last = g.last;
  paired = without_index-paired n s.doc_hashes s.uploaded_docs g.paired;
  documents = without_index-All _ n s.uploaded_docs g.documents;
  reported = g.reported;
}

at_step :
    (n : ℕ) (s : RegistrationState) → 1 ≤ n → n ≤ 4 → IsWell s → IsWell (record s { step = n })
at_step n s h k g = record {
  first = h;
  last = k;
  paired = g.paired;
  documents = g.documents;
  reported = g.reported;
}

next_step-IsWell :
    (trigger : List FormField → InstitutionForm → Bool) (s : RegistrationState)
    → IsWell s
    → IsWell (next_step trigger s)
unfolding next_step
next_step-IsWell trigger s g =
    branch-IsWell (trigger (fields_to_validate s.step) s.form) _ _
      (at_step _ s (omega (arith, g.first)) (omega arith) g) g

prev_step-IsWell : (s : RegistrationState) → IsWell s → IsWell (prev_step s)
unfolding prev_step
prev_step-IsWell s g = at_step _ s (omega arith) (omega (arith, g.last)) g

perform-IsWell : (a : Action) (s : RegistrationState) → IsWell s → IsWell (perform a s)
unfolding perform
perform-IsWell (edit f) s g = record {
  first = g.first;
  last = g.last;
  paired = g.paired;
  documents = g.documents;
  reported = g.reported;
}
perform-IsWell (upload digits fs) s g = handle_file_upload-IsWell digits fs s g
perform-IsWell (remove index) s g = remove_document-IsWell index s g
perform-IsWell (next trigger) s g =
    branch-IsWell (ltb s.step 4) _ _ (next_step-IsWell trigger s g) g
perform-IsWell previous s g = branch-IsWell (ltb 1 s.step) _ _ (prev_step-IsWell s g) g
perform-IsWell (submit call account) s g = on_submit-IsWell call account s g

perform_all-kept :
    (actions : List Action) (s : RegistrationState) → IsWell s → IsWell (perform_all actions s)
unfolding perform_all
perform_all-kept [] s g = g
perform_all-kept (a ∷ as') s g = perform_all-kept as' (perform a s) (perform-IsWell a s g)

-- From the first step of an empty wizard, whatever is done in whatever order, and whatever the form
-- library, the wallet and the chain answer, the step is one of the four, each document that is kept
-- is a PDF and has a hash, and no more registrations are reported than were sent.
pub perform_all-IsWell :
    (form : InstitutionForm) (did : DidState) (actions : List Action)
    → IsWell (perform_all actions (initial form did))
perform_all-IsWell form did actions = perform_all-kept actions (initial form did) (record {
  first = omega arith;
  last = omega arith;
  paired = refl;
  documents = tt;
  reported = omega arith;
})
