-- ===== src/Credential/Verify/Drawn.antt =====
-- When the result of the verification page is drawn without an error.
use academic_verification.Prelude.{
  sym, ◌∙◌, ℕ, String, Bool, true, false, Option, none, some, Settled, ok, err, ◌>>=◌, ◌≡◌, refl,
  inl, inr, arith, ap, Bool-cases, Settled-cases,
}
use academic_verification.Integration.Format.{Credential}
use academic_verification.Hex.{Value}
use academic_verification.Credential.Verify.View.{
  draw, draw_field, draw_details, draw_credential, draw_result, draws_field, draws_credential,
  draws,
}
use academic_verification.Credential.Verify.{
  VerifiedCredential, degree_of, VerifyState, Metadata, null_metadata, fields, present, show_result,
  status_of, get_verification_status,
}

abbrev pub succeeds {ℓ} : {A : Type ℓ} → Settled A → Bool
succeeds (ok a) = true
succeeds (err m) = false

succeeds_after {ℓ κ} :
    {A : Type ℓ} {B : Type κ} (x : Settled A) (f : A → B)
    → succeeds (x >>= λ a. ok (f a)) ≡ succeeds x
succeeds_after (ok a) f = refl
succeeds_after (err m) f = refl

field-drawn :
    (is_child : Value → Bool) (f : Option Value)
    → succeeds (draw_field is_child f) ≡ draws_field is_child f
unfolding draw_field draw
field-drawn is_child none = refl
field-drawn is_child (some v) = ground arith

details-drawn :
    (is_child : Value → Bool) (c : VerifiedCredential)
    → succeeds (draw_details is_child c) ≡ draws_credential is_child (some c)
unfolding draw_details draw
details-drawn is_child c = elim (Bool-cases (is_child (degree_of (some c.degree_name)))) [
  | inl taken ↦ rw taken (
      succeeds_after (draw_field is_child c.field_of_study) _
      ∙ field-drawn is_child c.field_of_study)
  | inr refused ↦ rw refused refl
]

result-drawn :
    (is_child : Value → Bool) (now : ℕ) (c : VerifiedCredential)
    → succeeds (draw_result is_child now (some (record { found = true; credential = some c })))
      ≡ draws_credential is_child (some c)
unfolding draw_result get_verification_status draw_credential status_of
result-drawn is_child now c =
    let k = details-drawn is_child c in
    elim (Settled-cases (draw_details is_child c)) [
      | inl (d, e) ↦ rw e (ap succeeds (sym e) ∙ k)
      | inr (m, e) ↦ rw e (ap succeeds (sym e) ∙ k)
    ]

pub present-drawn :
    (is_child : Value → Bool) (now : ℕ) (c : Credential) (name : Option String) (m : Metadata)
    (s : VerifyState)
    → let r = (show_result (present c name m) s).verification_result in
      succeeds (draw_result is_child now r) ≡ draws is_child r
unfolding draw_result get_verification_status draw_credential show_result present status_of
present-drawn is_child now c name null_metadata s = refl
present-drawn is_child now c name (fields d f) s = result-drawn is_child now (record {
  id = c.id;
  holder = c.holder;
  issuer = c.issuer;
  issuer_name = name;
  credential_hash = c.credential_hash;
  credential_type = c.credential_type;
  degree_name = degree_of d;
  field_of_study = f;
  issued_at = c.issued_at;
  expires_at = c.expires_at;
  revoked = c.revoked;
  metadata = c.metadata;
})
