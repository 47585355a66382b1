-- ===== src/Integration/Types/Laws.antt =====
-- The names of credential types, to the chain and back.
use academic_verification.Prelude.{
  ok-injective, List, [], ◌∷◌, String, ◌≡◌, refl, inl, inr, Option, none, some, arith, ok, Among,
  All-Among, lookup, lookup-All, str_or, Option-cases, ◌==◌, false,
}
use academic_verification.Constants.{credential_types, credential_type_display_map}
use academic_verification.Integration.Types.{
  RawType, text, null, object, other, format_credential_type, blockchain_type, display,
  type_mapping,
}

-- A type that the form offers is sent to the chain under a name that is shown as that type again.
pub format-blockchain_type :
    (t : String)
    → Among t credential_types
    → format_credential_type (text (blockchain_type t)) ≡ ok t
unfolding format_credential_type blockchain_type
format-blockchain_type t =
    All-Among (λ t. format_credential_type (text (blockchain_type t)) ≡ ok t) credential_types t
      (refl, (refl, (refl, (refl, (refl, (refl, (refl, tt)))))))

-- A name in the table is shown as itself, and is not empty.
display-value :
    (k v : String)
    → lookup k credential_type_display_map ≡ some v
    → (display v ≡ v) × ((v == "") ≡ false)
unfolding display
display-value k v =
    lookup-All (λ _ v. (display v ≡ v) × ((v == "") ≡ false)) k credential_type_display_map v
      (
        (refl, refl),
        (
          (refl, refl),
          ((refl, refl), ((refl, refl), ((refl, refl), ((refl, refl), ((refl, refl), tt))))),
        ),
      )

display_found : (k v : String) → lookup k credential_type_display_map ≡ some v → display k ≡ v
unfolding display
display_found k v e = let (_, present) = display-value k v e in rw (e, present)

display_missing : (s : String) → lookup s credential_type_display_map ≡ none → display s ≡ s
unfolding display
display_missing s e = rw e

display_idempotent : (s : String) → display (display s) ≡ display s
display_idempotent s = elim (Option-cases (lookup s credential_type_display_map)) [
  | inl missing ↦ let same = display_missing s missing in rw same same
  | inr (v, found) ↦ rw (display_found s v found) (display-value s v found).0
]

-- A type that is shown keeps its name when it is formatted again, whatever the chain gave.
pub format_credential_type_idempotent :
    (r : RawType) (t : String)
    → format_credential_type r ≡ ok t
    → format_credential_type (text t) ≡ ok t
unfolding format_credential_type
format_credential_type_idempotent (text s) t e = ground (arith, display_idempotent s)
format_credential_type_idempotent (object s) t e = ground (arith, display_idempotent s)
format_credential_type_idempotent null t e = cc
format_credential_type_idempotent other t e = rw (← ok-injective _ _ e)

-- The variants of the chain's enum.
abbrev pub enum_names : List String
enum_names =
    "Degree"
    ∷ ("MastersDegree"
        ∷ ("Doctorate"
            ∷ ("Certificate" ∷ ("Transcript" ∷ ("ProfessionalCertification" ∷ ("Other" ∷ []))))))

-- A name that the form's table gives is a variant, and is not empty.
type_mapping-value :
    (t v : String) → lookup t type_mapping ≡ some v → ((v == "") ≡ false) × Among v enum_names
type_mapping-value t v =
    lookup-All (λ _ v. ((v == "") ≡ false) × Among v enum_names) t type_mapping v
      (
        (refl, inl refl),
        (
          (refl, inr (inl refl)),
          (
            (refl, inr (inr (inl refl))),
            (
              (refl, inr (inr (inr (inl refl)))),
              (
                (refl, inr (inr (inr (inr (inl refl))))),
                (
                  (refl, inr (inr (inr (inr (inr (inl refl)))))),
                  ((refl, inr (inr (inr (inr (inr (inr (inl refl))))))), (tt)),
                ),
              ),
            ),
          ),
        ),
      )

sent-Among :
    (t : String) (o : Option String)
    → lookup t type_mapping ≡ o
    → Among (str_or o "Other") enum_names
sent-Among t none e = inr (inr (inr (inr (inr (inr (inl refl))))))
sent-Among t (some v) e = let (present, m) = type_mapping-value t v e in rw present m

-- Whatever text the caller passes, the name that is sent is a variant of the chain's enum, and a
-- variant, shown to the user and sent again, is sent as itself.
pub blockchain_type-enum :
    (t : String)
    → Among (blockchain_type t) enum_names × (Among t enum_names → blockchain_type (display t) ≡ t)
unfolding blockchain_type display
blockchain_type-enum t = (
  sent-Among t _ refl,
  All-Among (λ t. blockchain_type (display t) ≡ t) enum_names t
      (refl, (refl, (refl, (refl, (refl, (refl, (refl, tt))))))),
)
