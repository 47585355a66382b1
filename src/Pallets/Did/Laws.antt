-- ===== src/Pallets/Did/Laws.antt =====
-- The invariant of the storage of pallets/did.
use academic_verification.Prelude.{
  ℕ, ◌≤◌, Bool, true, false, some, List, [], ◌∷◌, ◌++◌, ◌==◌, ◌≡◌, refl, subst, arith, is_some,
  filter, length, All, eq_iff,
}
use academic_verification.Pallets.Base.{
  AccountId, H256, Config, Entries, Entries-put, put, put-is_some,
}
use academic_verification.Pallets.Did.{
  PublicKeyEntry, DidDocument, Institution, DidStorage, Event, deposit_event, put_did,
  put_institution, has_key,
}

-- No two keys have the same id.
abbrev pub HasDistinctKeys : List PublicKeyEntry → Type 0
HasDistinctKeys [] = Unit
HasDistinctKeys (k ∷ ks) = (has_key k.key_id ks ≡ false) × HasDistinctKeys ks

-- The id of a key is its hash.
abbrev pub IsKeyed : Config → PublicKeyEntry → Type 0
IsKeyed cfg k = k.key_id ≡ cfg.blake2_256 k.public_key

-- A document stands under its controller, its keys have the hashes as their ids, which differ, there
-- are no more than allowed, and its blocks are in order.
pub record IsDocument (cfg : Config) (now : ℕ) (a : AccountId) (d : DidDocument) : Type 0 where
  pub owned : d.controller ≡ a
  pub keyed : All (IsKeyed cfg) d.public_keys
  pub distinct : HasDistinctKeys d.public_keys
  pub within : length d.public_keys ≤ cfg.max_public_keys
  pub created : d.created_at ≤ d.updated_at
  pub updated : d.updated_at ≤ now

-- An institution stands under its identifier, which has a document.
abbrev pub IsInstitution : DidStorage → AccountId → Institution → Type 0
IsInstitution s a i = (i.did ≡ a) × (is_some (s.did_documents a) ≡ true)

pub record IsSound (cfg : Config) (now : ℕ) (s : DidStorage) : Type 0 where
  pub documents : Entries (IsDocument cfg now) s.did_documents
  pub institutions : Entries (IsInstitution s) s.institutions

-- No document and no institution is ever removed.
pub record Keeps (s t : DidStorage) : Type 0 where
  pub documents :
      (a : AccountId) → is_some (s.did_documents a) ≡ true → is_some (t.did_documents a) ≡ true
  pub institutions :
      (a : AccountId) → is_some (s.institutions a) ≡ true → is_some (t.institutions a) ≡ true

has_key-snoc :
    (i : H256) (ks : List PublicKeyEntry) (k : PublicKeyEntry)
    → has_key i ks ≡ false
    → (k.key_id == i) ≡ false
    → has_key i (ks ++ k ∷ []) ≡ false
has_key-snoc i [] k h e = rw e refl
has_key-snoc i (x ∷ xs) k h e = ground (arith, has_key-snoc i xs k)

pub HasDistinctKeys-snoc :
    (ks : List PublicKeyEntry) (k : PublicKeyEntry)
    → has_key k.key_id ks ≡ false
    → HasDistinctKeys ks
    → HasDistinctKeys (ks ++ k ∷ [])
HasDistinctKeys-snoc [] k h d = (refl, tt)
HasDistinctKeys-snoc (x ∷ xs) k h d = ground (
  arith,
  has_key-snoc x.key_id xs k,
  HasDistinctKeys-snoc xs k,
  eq_iff k.key_id x.key_id,
  eq_iff x.key_id k.key_id,
)

has_key-filter :
    (p : PublicKeyEntry → Bool) (i : H256) (ks : List PublicKeyEntry)
    → has_key i ks ≡ false
    → has_key i (filter p ks) ≡ false
has_key-filter p i [] h = refl
has_key-filter p i (k ∷ ks) h = ground (arith, has_key-filter p i ks)

pub HasDistinctKeys-filter :
    (p : PublicKeyEntry → Bool) (ks : List PublicKeyEntry)
    → HasDistinctKeys ks
    → HasDistinctKeys (filter p ks)
HasDistinctKeys-filter p [] d = tt
HasDistinctKeys-filter p (k ∷ ks) d =
    ground (arith, has_key-filter p k.key_id ks, HasDistinctKeys-filter p ks)

-- The state after a call that writes a document, or an institution.
abbrev pub SoundStep : Config → ℕ → DidStorage → DidStorage → Type 0
SoundStep cfg now s t = IsSound cfg now t × Keeps s t

module _ (cfg : Config) (now : ℕ) (s : DidStorage) (v : IsSound cfg now s) where
  pub put_did-step :
      (a : AccountId) (d : DidDocument) (e : Event) (t : DidStorage)
      → IsDocument cfg now a d
      → put_did a d e s ≡ t
      → SoundStep cfg now s t
  unfolding deposit_event
  put_did-step a d e t h written =
      let kept : (b : AccountId)
          → is_some (s.did_documents b) ≡ true
          → is_some (put a (some d) s.did_documents b) ≡ true =
        λ b p. put-is_some a b d s.did_documents p in
      subst (SoundStep cfg now s) written (
        record {
          documents = Entries-put (IsDocument cfg now) s.did_documents a d h v.documents;
          institutions = λ b i p. let old = v.institutions b i p in (old.0, kept b old.1);
        },
        record { documents = kept; institutions = λ b p. p },
      )

  pub put_institution-step :
      (a : AccountId) (i : Institution) (e : Event) (t : DidStorage)
      → IsInstitution s a i
      → put_institution a i e s ≡ t
      → SoundStep cfg now s t
  unfolding deposit_event
  put_institution-step a i e t h written = subst (SoundStep cfg now s) written (
    record {
      documents = v.documents;
      institutions = Entries-put (IsInstitution s) s.institutions a i h v.institutions;
    },
    record { documents = λ b p. p; institutions = λ b p. put-is_some a b i s.institutions p },
  )
