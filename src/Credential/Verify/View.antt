-- ===== src/Credential/Verify/View.antt =====
-- The result as the page of
-- academic-verification-frontend/src/components/credentials/VerifyCredential.tsx draws it: the verdict, and
-- below it the degree and the field of study as the parsed metadata give them. `is_child` says which
-- values React draws; it throws at any other, such as an object. The other texts of the result are drawn
-- as they are.
use academic_verification.Prelude.{
  ℕ, Bool, true, not, ◌&&◌, ◌||◌, Option, none, some, Settled, ok, err, ◌>>=◌, if◌then◌else◌,
}
use academic_verification.Hex.{Value, truthy_value}
use academic_verification.Credential.Verify.{
  VerificationResult, VerifiedCredential, VerificationStatus, degree_of, get_verification_status,
}

-- What is drawn of a credential.
pub record Details : Type 0 where
  pub degree_name : Value
  pub field_of_study : Option Value

pub record ResultView : Type 0 where
  pub status : VerificationStatus
  pub details : Option Details

module _ (is_child : Value → Bool) where
  unfoldable pub draw : Value → Settled Value
  draw v = if is_child v then ok v else err "Objects are not valid as a React child"

  -- `fieldOfStudy && (…)`; React is given a value that is falsy itself, and draws each of them.
  unfoldable pub draw_field : Option Value → Settled (Option Value)
  unfolding draw
  draw_field none = ok none
  draw_field (some v) = if truthy_value v then (draw v >>= λ w. ok (some w)) else ok (some v)

  unfoldable pub draw_details : VerifiedCredential → Settled Details
  unfolding draw draw_field
  draw_details c = do
    degree ← draw (degree_of (some c.degree_name))
    field ← draw_field c.field_of_study
    ok (record { degree_name = degree; field_of_study = field })

  -- `verificationResult.found && verificationResult.credential && (…)`
  unfoldable pub draw_credential : VerificationResult → Settled (Option Details)
  unfolding draw_details
  draw_credential r = elim r.credential [
    | none ↦ ok none
    | some c ↦ if r.found then (draw_details c >>= λ d. ok (some d)) else ok none
  ]

  -- `verificationResult && status && (…)`
  unfoldable pub draw_result : ℕ → Option VerificationResult → Settled (Option ResultView)
  unfolding get_verification_status draw_credential
  draw_result now none = ok none
  draw_result now (some r) = get_verification_status now (some r) >>= λ status. elim status [
    | none ↦ ok none
    | some v ↦ draw_credential r >>= λ d. ok (some (record { status = v; details = d }))
  ]

  -- The values of a result that React is given are values that it draws.
  abbrev pub draws_field : Option Value → Bool
  draws_field none = true
  draws_field (some v) = not (truthy_value v) || is_child v

  abbrev pub draws_credential : Option VerifiedCredential → Bool
  draws_credential none = true
  draws_credential (some c) =
      is_child (degree_of (some c.degree_name)) && draws_field c.field_of_study

  abbrev pub draws : Option VerificationResult → Bool
  draws none = true
  draws (some r) = draws_credential r.credential
