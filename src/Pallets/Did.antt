-- ===== src/Pallets/Did.antt =====
-- pallets/did/src/lib.rs: identifiers with their keys, and institutions. `now` is the number of the
-- block; a result that is an error leaves the storage as it was.
pub mod Calls
pub mod Laws
pub mod Errors
pub mod Sound
use academic_verification.Prelude.{
  ℕ, Bool, true, false, not, Option, some, List, [], ◌∷◌, ◌++◌, ◌==◌, is_some, filter, length, ltb,
  if◌then◌else◌,
}
use academic_verification.Pallets.Base.{
  AccountId, H256, Bytes, Origin, did, did_already_exists, did_not_found, too_many_public_keys,
  public_key_already_exists, public_key_not_found, institution_already_registered,
  institution_not_found, did_inactive, invalid_institution_name, DidError, Result, ok, ◌>>=◌, ◌>>◌,
  ensure, ok_or, ensure_signed, ensure_root, put, try_push, Config,
}

pub data KeyType : Type 0 where
  ed25519 sr25519 ecdsa : KeyType

pub record PublicKeyEntry : Type 0 where
  pub key_id : H256
  pub key_type : KeyType
  pub public_key : Bytes

pub record DidDocument : Type 0 where
  pub controller : AccountId
  pub public_keys : List PublicKeyEntry
  pub created_at : ℕ
  pub updated_at : ℕ
  pub active : Bool

pub record Institution : Type 0 where
  pub name : Bytes
  pub did : AccountId
  pub verified : Bool
  pub registered_at : ℕ

pub data Event : Type 0 where
  did_created did_updated did_deactivated : (owner : AccountId) → Event
  public_key_added public_key_removed : (owner : AccountId) (key_id : H256) → Event
  institution_registered : (owner : AccountId) (name : Bytes) → Event
  institution_verified institution_revoked : (owner : AccountId) → Event

-- The storage maps, and the events that this pallet deposits.
pub record DidStorage : Type 0 where
  pub did_documents : AccountId → Option DidDocument
  pub institutions : AccountId → Option Institution
  pub events : List Event

unfoldable pub deposit_event : Event → DidStorage → DidStorage
deposit_event e s = record s { events = s.events ++ e ∷ [] }

-- `DidDocuments::insert` and the event
abbrev pub put_did : AccountId → DidDocument → Event → DidStorage → DidStorage
put_did who d e s = deposit_event e (record s { did_documents = put who (some d) s.did_documents })

abbrev pub put_institution : AccountId → Institution → Event → DidStorage → DidStorage
put_institution who i e s =
    deposit_event e (record s { institutions = put who (some i) s.institutions })

-- `public_keys.iter().any(|k| k.key_id == key_id)`
abbrev pub has_key : H256 → List PublicKeyEntry → Bool
has_key key_id [] = false
has_key key_id (k ∷ ks) = if k.key_id == key_id then true else has_key key_id ks

-- `name.is_empty()`
abbrev pub is_empty {ℓ} : {A : Type ℓ} → List A → Bool
is_empty [] = true
is_empty (x ∷ xs) = false

module _ (cfg : Config) (now : ℕ) where
  unfoldable pub create_did : Origin → Bytes → KeyType → DidStorage → Result DidStorage
  create_did origin public_key key_type s = do
    who ← ensure_signed origin
    ensure (not (is_some (s.did_documents who))) (did did_already_exists)
    let key_entry : PublicKeyEntry = record {
      key_id = cfg.blake2_256 public_key;
      key_type = key_type;
      public_key = public_key;
    }
    public_keys ← ok_or (try_push cfg.max_public_keys [] key_entry) (did too_many_public_keys)
    ok (
        put_did who
          (record {
            controller = who;
            public_keys = public_keys;
            created_at = now;
            updated_at = now;
            active = true;
          })
          (did_created who) s)

  unfoldable pub add_public_key : Origin → Bytes → KeyType → DidStorage → Result DidStorage
  add_public_key origin public_key key_type s = do
    who ← ensure_signed origin
    doc ← ok_or (s.did_documents who) (did did_not_found)
    ensure (doc.controller == who) (did DidError.not_authorized)
    ensure doc.active (did did_inactive)
    let key_id = cfg.blake2_256 public_key
    ensure (not (has_key key_id doc.public_keys)) (did public_key_already_exists)
    let key_entry : PublicKeyEntry = record {
      key_id = key_id;
      key_type = key_type;
      public_key = public_key;
    }
    public_keys ←
        ok_or (try_push cfg.max_public_keys doc.public_keys key_entry) (did too_many_public_keys)
    ok (
        put_did who (record doc { public_keys = public_keys; updated_at = now })
          (public_key_added who key_id) s)

  unfoldable pub remove_public_key : Origin → H256 → DidStorage → Result DidStorage
  remove_public_key origin key_id s = do
    who ← ensure_signed origin
    doc ← ok_or (s.did_documents who) (did did_not_found)
    ensure (doc.controller == who) (did DidError.not_authorized)
    let kept = filter (λ k. not (k.key_id == key_id)) doc.public_keys
    ensure (ltb (length kept) (length doc.public_keys)) (did public_key_not_found)
    ok (
        put_did who (record doc { public_keys = kept; updated_at = now })
          (public_key_removed who key_id) s)

  unfoldable pub deactivate_did : Origin → DidStorage → Result DidStorage
  deactivate_did origin s = do
    who ← ensure_signed origin
    doc ← ok_or (s.did_documents who) (did did_not_found)
    ensure (doc.controller == who) (did DidError.not_authorized)
    ok (put_did who (record doc { active = false; updated_at = now }) (did_deactivated who) s)

  unfoldable pub reactivate_did : Origin → DidStorage → Result DidStorage
  reactivate_did origin s = do
    who ← ensure_signed origin
    doc ← ok_or (s.did_documents who) (did did_not_found)
    ensure (doc.controller == who) (did DidError.not_authorized)
    ok (put_did who (record doc { active = true; updated_at = now }) (did_updated who) s)

  unfoldable pub register_institution : Origin → Bytes → DidStorage → Result DidStorage
  register_institution origin name s = do
    who ← ensure_signed origin
    ensure (not (is_some (s.institutions who))) (did institution_already_registered)
    ensure (is_some (s.did_documents who)) (did did_not_found)
    ensure (not (is_empty name)) (did invalid_institution_name)
    ok (
        put_institution who
          (record { name = name; did = who; verified = false; registered_at = now })
          (institution_registered who name) s)

unfoldable pub verify_institution : Origin → AccountId → DidStorage → Result DidStorage
verify_institution origin institution_did s = do
  ensure_root origin
  i ← ok_or (s.institutions institution_did) (did institution_not_found)
  ok (
      put_institution institution_did (record i { verified = true })
        (institution_verified institution_did) s)

unfoldable pub revoke_institution : Origin → AccountId → DidStorage → Result DidStorage
revoke_institution origin institution_did s = do
  ensure_root origin
  i ← ok_or (s.institutions institution_did) (did institution_not_found)
  ok (
      put_institution institution_did (record i { verified = false })
        (institution_revoked institution_did) s)
