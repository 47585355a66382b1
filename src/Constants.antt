-- ===== src/Constants.antt =====
-- academic-verification-frontend/src/lib/utils/constants.ts: the status values, the credential
-- types and the two tables between the names shown to a user and the names of the chain's enum.
use academic_verification.Prelude.{ℕ, ◌*◌, String, List, [], ◌∷◌}

-- `DID_STATUS`
pub data DidStatus : Type 0 where
  no_did active inactive pending : DidStatus

abbrev pub credential_types : List String
credential_types =
    "Bachelor's Degree"
    ∷ ("Master's Degree"
        ∷ ("Doctorate (PhD)"
            ∷ ("Certificate" ∷ ("Transcript" ∷ ("Professional Certification" ∷ ("Other" ∷ []))))))

-- The table's keys are its own: a key that every JavaScript object inherits, such as `toString`, is
-- taken to be missing.
abbrev pub credential_type_enum_map : List (String × String)
credential_type_enum_map =
    ("Bachelor's Degree", "Degree")
    ∷ (("Master's Degree", "MastersDegree")
        ∷ (("Doctorate (PhD)", "Doctorate")
            ∷ (("Certificate", "Certificate")
                ∷ (("Transcript", "Transcript")
                    ∷ (("Professional Certification", "ProfessionalCertification")
                        ∷ (("Other", "Other") ∷ []))))))

abbrev pub credential_type_display_map : List (String × String)
credential_type_display_map =
    ("Degree", "Bachelor's Degree")
    ∷ (("MastersDegree", "Master's Degree")
        ∷ (("Doctorate", "Doctorate (PhD)")
            ∷ (("Certificate", "Certificate")
                ∷ (("Transcript", "Transcript")
                    ∷ (("ProfessionalCertification", "Professional Certification")
                        ∷ (("Other", "Other") ∷ []))))))

-- `FILE_UPLOAD.MAX_SIZE`
abbrev pub max_size : ℕ
max_size = 10 * 1024 * 1024
