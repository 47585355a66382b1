-- ===== src/Integration/Format.antt =====
-- `formatCredentialData` and `checkPalletAvailability` of
-- academic-verification-frontend/src/lib/blockchain/integration.ts.
pub mod Laws
use academic_verification.Prelude.{
  ℕ, String, Bool, false, Option, none, some, ◌==◌, Settled, ok, ◌>>=◌, or_else, num_or,
  if◌then◌else◌,
}
use academic_verification.Chain.{Api, RawCredential}
use academic_verification.Integration.Types.{format_credential_type}
use academic_verification.Integration.Timestamp.{normalize_timestamp}

pub record Credential : Type 0 where
  pub id : String
  pub holder : String
  pub issuer : String
  pub credential_hash : String
  pub credential_type : String
  pub metadata : Option String
  pub issued_at : ℕ
  pub expires_at : Option ℕ
  pub revoked : Bool

-- `rawCredential.metadata ? Buffer.from(rawCredential.metadata).toString('utf-8') : undefined`
pub decode_if_present : Api → Option String → Settled (Option String)
decode_if_present api none = ok none
decode_if_present api (some m) =
    if m == "" then ok none else api.decode_metadata m >>= λ d. ok (some d)

unfoldable pub format_credential_data : Api → RawCredential → Settled Credential
unfolding decode_if_present
format_credential_data api raw = do
  shown ← format_credential_type raw.credential_type
  metadata ← decode_if_present api raw.metadata
  ok (record {
    id = raw.credential_id;
    holder = raw.holder;
    issuer = raw.issuer;
    credential_hash = raw.credential_hash;
    credential_type = shown;
    metadata = metadata;
    issued_at = num_or (normalize_timestamp raw.issued_at) api.now;
    expires_at = normalize_timestamp raw.expires_at;
    revoked = raw.status == "Revoked";
  })

unfoldable pub check_pallet_availability : Api → String → Bool
check_pallet_availability api name = or_else (api.has_pallet name) false
