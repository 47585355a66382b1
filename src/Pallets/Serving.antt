-- ===== src/Pallets/Serving.antt =====
-- A node that serves the storage of pallets/credential/src/lib.rs to the frontend: what the client
-- library reads of it.
pub mod Types
pub mod Verdicts
pub mod Lifecycle
mod Tests
use academic_verification.Prelude.{String, true, Option, none, some, Settled, ok, ◌≡◌}
use academic_verification.Chain.{Api, RawCredential}
use academic_verification.Integration.Types.{text}
use academic_verification.Integration.Format.{check_pallet_availability}
use academic_verification.Pallets.Base.{H256, Bytes}
use academic_verification.Pallets.Credential.{
  Credential, CredentialType, CredentialStatus, CredentialStorage, active, revoked, expired, degree,
  masters_degree, doctorate, certificate, transcript, professional_certification, other,
}

-- The names of the variants, by which the client library writes an enum.
abbrev pub type_name : CredentialType → String
type_name degree = "Degree"
type_name masters_degree = "MastersDegree"
type_name doctorate = "Doctorate"
type_name certificate = "Certificate"
type_name transcript = "Transcript"
type_name professional_certification = "ProfessionalCertification"
type_name other = "Other"

abbrev pub status_name : CredentialStatus → String
status_name active = "Active"
status_name revoked = "Revoked"
status_name expired = "Expired"

-- What `toJSON` gives for a record of the pallet; `to_hex` writes bytes.
abbrev pub raw_of : (Bytes → String) → Credential → RawCredential
raw_of to_hex c = record {
  credential_id = c.credential_id;
  holder = c.holder;
  issuer = c.issuer;
  credential_hash = c.credential_hash;
  credential_type = text (type_name c.credential_type);
  metadata = some (to_hex c.metadata);
  issued_at = some c.issued_at;
  expires_at = c.expires_at;
  status = status_name c.status;
}

abbrev pub raw_if_any : (Bytes → String) → Option Credential → Option RawCredential
raw_if_any to_hex none = none
raw_if_any to_hex (some c) = some (raw_of to_hex c)

-- The node answers the frontend's queries of the credential pallet by its storage.
pub record Serves (to_hex : Bytes → String) (s : CredentialStorage) (api : Api) : Type 0 where
  pub available : check_pallet_availability api "credential" ≡ true
  pub credentials : (id : H256) → api.credentials id ≡ ok (raw_if_any to_hex (s.credentials id))
  pub hashes : (h : H256) → api.credential_by_hash h ≡ ok (s.credential_by_hash h)
