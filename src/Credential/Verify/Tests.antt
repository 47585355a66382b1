-- ===== src/Credential/Verify/Tests.antt =====
-- Runs of the verification page.
use academic_verification.Prelude.{
  String, false, Option, none, some, List, [], ◌∷◌, Settled, ok, err, ◌≡◌, ◌≢◌, ◌↔◌, arith,
}
use academic_verification.Hex.{str}
use academic_verification.Integration.Format.{Credential}
use academic_verification.Chain.{Api}
use academic_verification.Queries.Real.Laws.{IsStored}
use academic_verification.Queries.Real.Tests.{api}
use academic_verification.Credential.Status.{has_expired}
use academic_verification.Credential.Verify
use academic_verification.Credential.Verify.{
  Metadata, FileData, VerifyState, null_metadata, fields, with_hash, valid_credential, initial,
  get_verification_status, verify_by_hash, parse_metadata,
}
use academic_verification.Credential.Verify.Laws.{verify_by_hash-valid}
use academic_verification.Credential.Verify.Session.{
  Action, open_link, choose_method, type_hash, submit, upload, IsReady, perform_all,
  initial-IsReady, perform_all-IsReady,
}

abbrev pub hex_to_string : String → Settled String
hex_to_string s = err "not hex"

abbrev pub parse_json : String → Settled Metadata
parse_json s = ok (fields (some (str "Computer Science")) none)

abbrev parse_file : String → Settled FileData
parse_file s = ok (with_hash (some s))

verify_by_hash-valid_example :
    (get_verification_status 9
        (verify_by_hash hex_to_string parse_json
          (some api)
          "0xabcdef0123"
          (initial "")).verification_result
      ≡ ok (some valid_credential))
    ↔ ((id : String) × (c : Credential) × (api.credential_by_hash "0xabcdef0123" ≡ ok (some id))
        × IsStored api id c
        × (c.revoked ≡ false)
        × (has_expired 9 c.expires_at ≡ false)
        × (parse_metadata hex_to_string parse_json c.metadata ≢ null_metadata))
verify_by_hash-valid_example =
    verify_by_hash-valid hex_to_string parse_json api "0xabcdef0123" (initial "") 9 (omega arith)

abbrev offline : Api
offline = record api { credential_by_hash = λ h. err "disconnected" }

abbrev visit : List Action
visit =
    open_link (some api) "0xabcdef0123"
    ∷ (choose_method Verify.file
        ∷ (upload (some offline) (
              some (record {
                name = "degree.json";
                file_type = "application/json";
                text = ok "0xabcdef0123";
              }))
            ∷ (type_hash "0x01" ∷ (submit (some api) ∷ []))))

abbrev url_hash : String → Settled (Option String)
url_hash s = err "Invalid URL"

perform_all-IsReady_example :
    IsReady (perform_all hex_to_string parse_json parse_file url_hash visit (initial ""))
perform_all-IsReady_example =
    perform_all-IsReady hex_to_string parse_json parse_file url_hash visit (initial "")
      (initial-IsReady "")
