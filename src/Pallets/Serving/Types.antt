-- ===== src/Pallets/Serving/Types.antt =====
-- The types of credentials that academic-verification-frontend/src/lib/blockchain/transactions.ts sends
-- and academic-verification-frontend/src/lib/blockchain/integration.ts shows, against the enum of
-- pallets/credential/src/lib.rs.
use academic_verification.Prelude.{
  String, some, ok, ◌≡◌, refl, ap, ◌∙◌, inl, inr, Option-cases, lookup, lookup-All, str_or,
}
use academic_verification.Integration.Types.{
  text, type_mapping, blockchain_type, format_credential_type,
}
use academic_verification.Pallets.Credential.{
  CredentialType, degree, masters_degree, doctorate, certificate, transcript,
  professional_certification, other,
}
use academic_verification.Pallets.Serving.{type_name}

abbrev NamesVariant : String → Type 0
NamesVariant v = (y : CredentialType) × (str_or (some v) "Other" ≡ type_name y)

sent_type : (t : String) → (y : CredentialType) × (blockchain_type t ≡ type_name y)
unfolding blockchain_type
sent_type t = elim (Option-cases (lookup t type_mapping)) [
  | inl missing ↦ (other, ap (λ o. str_or o "Other") missing)
  | inr (v, found) ↦
      let (y, e) =
        lookup-All (λ _ v. NamesVariant v) t type_mapping v
          (
            (degree, refl),
            (
              (masters_degree, refl),
              (
                (doctorate, refl),
                (
                  (certificate, refl),
                  ((transcript, refl), ((professional_certification, refl), ((other, refl), tt))),
                ),
              ),
            ),
          )
          found in
      (y, ap (λ o. str_or o "Other") found ∙ e)
]

shown_type :
    (y : CredentialType)
    → (shown : String) × (format_credential_type (text (type_name y)) ≡ ok shown)
      × (blockchain_type shown ≡ type_name y)
unfolding blockchain_type format_credential_type
shown_type degree = ("Bachelor's Degree", refl, refl)
shown_type masters_degree = ("Master's Degree", refl, refl)
shown_type doctorate = ("Doctorate (PhD)", refl, refl)
shown_type certificate = ("Certificate", refl, refl)
shown_type transcript = ("Transcript", refl, refl)
shown_type professional_certification = ("Professional Certification", refl, refl)
shown_type other = ("Other", refl, refl)

-- Whatever text the form gives for the type, what is sent names a variant of the chain's enum; and
-- every variant is shown as a text under which that very variant is sent.
pub blockchain_type-format :
    (t : String) (y : CredentialType)
    → ((z : CredentialType) × (blockchain_type t ≡ type_name z))
      × ((shown : String) × (format_credential_type (text (type_name y)) ≡ ok shown)
          × (blockchain_type shown ≡ type_name y))
blockchain_type-format t y = (sent_type t, shown_type y)
