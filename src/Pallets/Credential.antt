-- ===== src/Pallets/Credential.antt =====
-- pallets/credential/src/lib.rs: credentials by their id, and three indexes. The calls read the
-- storage of the DID pallet; `now` is the number of the block.
pub mod Calls
pub mod Index
pub mod Indexed
pub mod Changed
pub mod Accepted
pub mod Admission
pub mod Counter
pub mod Sound
use academic_verification.Prelude.{
  ℕ, ◌/◌, ◌%◌, Bool, true, false, not, Option, none, some, List, [], ◌∷◌, ◌++◌, ◌==◌, is_some, leb,
}
use academic_verification.Pallets.Base.{
  AccountId, H256, Bytes, Origin, credential, credential_not_found, credential_already_exists,
  CredentialError, issuer_not_verified, issuer_has_no_did, holder_has_no_did,
  credential_already_revoked, credential_expired, too_many_credentials, credential_not_active,
  Result, ok, ◌>>=◌, ◌>>◌, ensure, ok_or, ensure_signed, put, try_push, saturating_add, u64_max,
  Config,
}
use academic_verification.Pallets.Did.{DidStorage}

pub data CredentialType : Type 0 where
  degree masters_degree doctorate certificate transcript : CredentialType
  professional_certification other : CredentialType

pub data CredentialStatus : Type 0 where
  active revoked expired : CredentialStatus

pub record Credential : Type 0 where
  pub credential_id : H256
  pub credential_hash : H256
  pub holder : AccountId
  pub issuer : AccountId
  pub credential_type : CredentialType
  pub metadata : Bytes
  pub issued_at : ℕ
  pub expires_at : Option ℕ
  pub status : CredentialStatus

pub record CredentialReference : Type 0 where
  pub credential_id : H256
  pub credential_type : CredentialType

pub data Event : Type 0 where
  credential_issued :
      (credential_id credential_hash : H256) (holder issuer : AccountId) → CredentialType → Event
  credential_revoked : (credential_id : H256) (revoked_by : AccountId) → Event
  credential_verified : (credential_id : H256) (verified_by : AccountId) → Event
  credential_metadata_updated : (credential_id : H256) → Event

-- The storage, and the events that this pallet deposits.
pub record CredentialStorage : Type 0 where
  pub credentials : H256 → Option Credential
  pub credentials_by_holder : AccountId → List CredentialReference
  pub credentials_by_issuer : AccountId → List H256
  pub credential_by_hash : H256 → Option H256
  pub next_credential_id : ℕ
  pub events : List Event

unfoldable pub deposit_event : Event → CredentialStorage → CredentialStorage
deposit_event e s = record s { events = s.events ++ e ∷ [] }

abbrev pub is_revoked : CredentialStatus → Bool
is_revoked revoked = true
is_revoked active = false
is_revoked expired = false

abbrev pub is_active : CredentialStatus → Bool
is_active active = true
is_active revoked = false
is_active expired = false

-- `counter.to_le_bytes()`
unfoldable pub to_le_bytes : ℕ → Bytes
to_le_bytes n =
    (n % 256)
    ∷ ((n / 256 % 256)
        ∷ ((n / 65536 % 256)
            ∷ ((n / 16777216 % 256)
                ∷ ((n / 4294967296 % 256)
                    ∷ ((n / 1099511627776 % 256)
                        ∷ ((n / 281474976710656 % 256) ∷ ((n / 72057594037927936 % 256) ∷ [])))))))

-- The reference of the index by holder, and the event of an issuance.
abbrev pub reference_of : Credential → CredentialReference
reference_of c = record { credential_id = c.credential_id; credential_type = c.credential_type }

abbrev pub issued_event : Credential → Event
issued_event c =
    credential_issued c.credential_id c.credential_hash c.holder c.issuer c.credential_type

-- `Credentials::insert` and the event
abbrev pub put_credential : H256 → Credential → Event → CredentialStorage → CredentialStorage
put_credential id c e s = deposit_event e (record s { credentials = put id (some c) s.credentials })

-- The check of the expiration
abbrev pub in_time : ℕ → Option ℕ → Bool
in_time now none = true
in_time now (some expires_at) = leb now expires_at

unfoldable pub generate_credential_id : Config → ℕ → AccountId → AccountId → H256
unfolding to_le_bytes
generate_credential_id cfg counter issuer holder =
    cfg.blake2_256 (to_le_bytes counter ++ (cfg.encode issuer ++ cfg.encode holder))

-- What `issue_credential` writes after its checks, for the new credential.
unfoldable pub store_credential : Config → Credential → CredentialStorage → Result CredentialStorage
unfolding deposit_event
store_credential cfg c s = do
  let bound = cfg.max_credentials_per_holder
  held ←
      ok_or (try_push bound (s.credentials_by_holder c.holder) (reference_of c))
        (credential too_many_credentials)
  issued ←
      ok_or (try_push bound (s.credentials_by_issuer c.issuer) c.credential_id)
        (credential too_many_credentials)
  ok (
      deposit_event (issued_event c) (record {
        credentials = put c.credential_id (some c) s.credentials;
        credentials_by_holder = put c.holder held s.credentials_by_holder;
        credentials_by_issuer = put c.issuer issued s.credentials_by_issuer;
        credential_by_hash = put c.credential_hash (some c.credential_id) s.credential_by_hash;
        next_credential_id = saturating_add u64_max s.next_credential_id 1;
        events = s.events;
      }))

-- The arguments of `issue_credential`
pub record Issuance : Type 0 where
  pub holder : AccountId
  pub credential_hash : H256
  pub credential_type : CredentialType
  pub metadata : Bytes
  pub expires_at : Option ℕ

-- The credential that is stored.
abbrev pub new_credential : Config → ℕ → ℕ → AccountId → Issuance → Credential
new_credential cfg now counter issuer x = record {
  credential_id = generate_credential_id cfg counter issuer x.holder;
  credential_hash = x.credential_hash;
  holder = x.holder;
  issuer = issuer;
  credential_type = x.credential_type;
  metadata = x.metadata;
  issued_at = now;
  expires_at = x.expires_at;
  status = active;
}

unfoldable pub issue_credential :
    Config → ℕ → DidStorage → Origin → Issuance → CredentialStorage → Result CredentialStorage
issue_credential cfg now dids origin x s = do
  issuer ← ensure_signed origin
  institution ← ok_or (dids.institutions issuer) (credential issuer_not_verified)
  ensure institution.verified (credential issuer_not_verified)
  issuer_did ← ok_or (dids.did_documents issuer) (credential issuer_has_no_did)
  ensure issuer_did.active (credential CredentialError.did_not_active)
  holder_did ← ok_or (dids.did_documents x.holder) (credential holder_has_no_did)
  ensure holder_did.active (credential CredentialError.did_not_active)
  ensure (not (is_some (s.credential_by_hash x.credential_hash)))
      (credential credential_already_exists)
  store_credential cfg (new_credential cfg now s.next_credential_id issuer x) s

unfoldable pub revoke_credential : Origin → H256 → CredentialStorage → Result CredentialStorage
revoke_credential origin id s = do
  revoker ← ensure_signed origin
  c ← ok_or (s.credentials id) (credential credential_not_found)
  ensure (c.issuer == revoker) (credential CredentialError.not_authorized)
  ensure (not (is_revoked c.status)) (credential credential_already_revoked)
  ok (put_credential id (record c { status = revoked }) (credential_revoked id revoker) s)

unfoldable pub verify_credential : ℕ → Origin → H256 → CredentialStorage → Result CredentialStorage
unfolding deposit_event
verify_credential now origin credential_hash s = do
  verifier ← ensure_signed origin
  id ← ok_or (s.credential_by_hash credential_hash) (credential credential_not_found)
  c ← ok_or (s.credentials id) (credential credential_not_found)
  ensure (is_active c.status) (credential credential_not_active)
  ensure (in_time now c.expires_at) (credential credential_expired)
  ok (deposit_event (credential_verified id verifier) s)

unfoldable pub update_credential_metadata :
    Origin → H256 → Bytes → CredentialStorage → Result CredentialStorage
update_credential_metadata origin id new_metadata s = do
  updater ← ensure_signed origin
  c ← ok_or (s.credentials id) (credential credential_not_found)
  ensure (c.issuer == updater) (credential CredentialError.not_authorized)
  ensure (is_active c.status) (credential credential_not_active)
  ok (put_credential id (record c { metadata = new_metadata }) (credential_metadata_updated id) s)
