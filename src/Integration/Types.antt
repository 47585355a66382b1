-- ===== src/Integration/Types.antt =====
-- `formatCredentialType` of academic-verification-frontend/src/lib/blockchain/integration.ts, and the
-- table that `issueCredential` of academic-verification-frontend/src/lib/blockchain/transactions.ts
-- keeps of its own.
pub mod Laws
use academic_verification.Prelude.{String, Settled, ok, err, List, [], ◌∷◌, lookup, str_or}
use academic_verification.Constants.{credential_type_display_map}

-- The value of the chain's enum as `toJSON` gives it: a string, an object, of which the code reads
-- the first key, `null`, or a value of any other type.
pub data RawType : Type 0 where
  text : String → RawType
  object : String → RawType
  null : RawType
  other : RawType

-- `CREDENTIAL_TYPE_DISPLAY_MAP[key] || key`
pub display : String → String
unfolding lookup
display key = str_or (lookup key credential_type_display_map) key

-- `typeof null` is "object", and `Object.keys(null)` throws.
unfoldable pub format_credential_type : RawType → Settled String
unfolding display
format_credential_type (text t) = ok (display t)
format_credential_type (object key) = ok (display key)
format_credential_type null = err "Cannot convert undefined or null to object"
format_credential_type other = ok "Unknown"

-- `typeMapping` of `issueCredential`
abbrev pub type_mapping : List (String × String)
type_mapping =
    ("Bachelor's Degree", "Degree")
    ∷ (("Master's Degree", "MastersDegree")
        ∷ (("Doctorate (PhD)", "Doctorate")
            ∷ (("Certificate", "Certificate")
                ∷ (("Transcript", "Transcript")
                    ∷ (("Professional Certification", "ProfessionalCertification")
                        ∷ (("Other", "Other") ∷ []))))))

-- `typeMapping[credentialType] || "Other"`
unfoldable pub blockchain_type : String → String
unfolding lookup
blockchain_type credential_type = str_or (lookup credential_type type_mapping) "Other"
