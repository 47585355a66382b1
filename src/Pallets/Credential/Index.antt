-- ===== src/Pallets/Credential/Index.antt =====
-- The invariant of the storage of pallets/credential: the credentials and the three indexes agree.
use academic_verification.Prelude.{
  ℕ, ◌+◌, ◌<◌, ◌≤◌, min, some, List, [], ◌∷◌, ◌++◌, ◌==◌, ◌≡◌, ◌⊎◌, Among-append, ap, sym, subst,
  ◌∙◌, arith, Among, Among-append_left, Bool-cases, inl, inr, eq_iff, length, length-append,
}
use academic_verification.Pallets.Base.{
  AccountId, H256, ok, credential, too_many_credentials, u64_max, Config, Entries, put, put_lem,
  put_self, try_push, try_push-eq-some, ok_or-eq-ok, ok-injective,
}
use academic_verification.Pallets.Credential
use academic_verification.Pallets.Credential.{
  CredentialReference, CredentialStorage, Event, reference_of, issued_event, generate_credential_id,
  store_credential, deposit_event, put_credential,
}

-- A credential stands under its id, is found by its hash, is listed for its holder and its issuer,
-- and its id was generated from a number below the counter.
pub record IsStored (cfg : Config) (s : CredentialStorage) (id : H256) (c : Credential.Credential)
    : Type 0 where
  pub named : c.credential_id ≡ id
  pub hashed : s.credential_by_hash c.credential_hash ≡ some id
  pub held : Among (reference_of c) (s.credentials_by_holder c.holder)
  pub issued : Among id (s.credentials_by_issuer c.issuer)
  pub counter : ℕ
  pub below : counter < s.next_credential_id
  pub generated : id ≡ generate_credential_id cfg counter c.issuer c.holder

-- What an index names is stored.
abbrev pub IsFound : CredentialStorage → H256 → H256 → Type 0
IsFound s h id = (c : Credential.Credential) × (s.credentials id ≡ some c) × (c.credential_hash ≡ h)

abbrev pub IsHeld : CredentialStorage → AccountId → CredentialReference → Type 0
IsHeld s a r =
    (c : Credential.Credential) × (s.credentials r.credential_id ≡ some c)
    × (c.holder ≡ a)
    × (reference_of c ≡ r)

abbrev pub IsAuthored : CredentialStorage → AccountId → H256 → Type 0
IsAuthored s a id = (c : Credential.Credential) × (s.credentials id ≡ some c) × (c.issuer ≡ a)

pub record IsIndexed (cfg : Config) (s : CredentialStorage) : Type 0 where
  pub stored : Entries (IsStored cfg s) s.credentials
  pub found : Entries (IsFound s) s.credential_by_hash
  pub held :
      (a : AccountId) (r : CredentialReference) → Among r (s.credentials_by_holder a) → IsHeld s a r
  pub authored :
      (a : AccountId) (id : H256) → Among id (s.credentials_by_issuer a) → IsAuthored s a id

-- What `store_credential` writes.
pub record IsAdded (cfg : Config) (c : Credential.Credential) (s t : CredentialStorage)
    : Type 0 where
  pub credentials : t.credentials ≡ put c.credential_id (some c) s.credentials
  pub by_holder :
      t.credentials_by_holder
      ≡ put c.holder
          (s.credentials_by_holder c.holder ++ reference_of c ∷ [])
          s.credentials_by_holder
  pub by_issuer :
      t.credentials_by_issuer
      ≡ put c.issuer
          (s.credentials_by_issuer c.issuer ++ c.credential_id ∷ [])
          s.credentials_by_issuer
  pub by_hash :
      t.credential_by_hash ≡ put c.credential_hash (some c.credential_id) s.credential_by_hash
  pub counter : t.next_credential_id ≡ min (s.next_credential_id + 1) u64_max
  pub holder_room : length (s.credentials_by_holder c.holder) < cfg.max_credentials_per_holder
  pub issuer_room : length (s.credentials_by_issuer c.issuer) < cfg.max_credentials_per_holder

room_of :
    {A : Type 0} (xs ys : List A) (x : A) (bound : ℕ)
    → ys ≡ xs ++ x ∷ []
    → length ys ≤ bound
    → length xs < bound
room_of xs ys x bound e h =
    let grown : length ys ≡ length (xs ++ x ∷ []) = ap length e in
    omega (arith, grown, length-append xs (x ∷ []))

pub store_credential-IsAdded :
    (cfg : Config) (c : Credential.Credential) (s t : CredentialStorage)
    → store_credential cfg c s ≡ ok t
    → IsAdded cfg c s t
unfolding store_credential deposit_event
store_credential-IsAdded cfg c s t h =
    let bound = cfg.max_credentials_per_holder in
    let (held, pushed, h1) =
      ok_or-eq-ok (try_push bound (s.credentials_by_holder c.holder) (reference_of c))
        (credential too_many_credentials) _ h in
    let (issued, pushed', h2) =
      ok_or-eq-ok (try_push bound (s.credentials_by_issuer c.issuer) c.credential_id)
        (credential too_many_credentials) _ h1 in
    let (grown, room) =
      try_push-eq-some bound (s.credentials_by_holder c.holder) held (reference_of c) pushed in
    let (grown', room') =
      try_push-eq-some bound (s.credentials_by_issuer c.issuer) issued c.credential_id pushed' in
    let written = sym (ok-injective _ _ h2) in
    record {
      credentials = ap (λ (u : CredentialStorage). u.credentials) written;
      by_holder =
          ap (λ (u : CredentialStorage). u.credentials_by_holder) written
          ∙ ap (λ l. put c.holder l s.credentials_by_holder) grown;
      by_issuer =
          ap (λ (u : CredentialStorage). u.credentials_by_issuer) written
          ∙ ap (λ l. put c.issuer l s.credentials_by_issuer) grown';
      by_hash = ap (λ (u : CredentialStorage). u.credential_by_hash) written;
      counter = ap (λ (u : CredentialStorage). u.next_credential_id) written;
      holder_room = room_of _ held (reference_of c) bound grown room;
      issuer_room = room_of _ issued c.credential_id bound grown' room';
    }

-- An entry that is listed stays listed when another is added to a list.
pub put-Among :
    {A : Type 0} (k j : AccountId) (m : AccountId → List A) (x r : A)
    → Among r (m j)
    → Among r (put k (m k ++ x ∷ []) m j)
put-Among k j m x r h = elim (Bool-cases (k == j)) [
  | inl same ↦
      let e = (eq_iff k j).0 same in
      subst (λ i. Among r (put k (m k ++ x ∷ []) m i)) e
        (rw (put_self k (m k ++ x ∷ []) m)
          (Among-append_left (m k) (x ∷ []) r (subst (λ i. Among r (m i)) (sym e) h)))
  | inr apart ↦ rw (put_lem k j (m k ++ x ∷ []) m, apart) h
]

-- What is listed after an addition was listed before, or was added.
pub Among-put :
    {A : Type 0} (k j : AccountId) (m : AccountId → List A) (x r : A)
    → Among r (put k (m k ++ x ∷ []) m j)
    → Among r (m j) ⊎ ((k ≡ j) × (r ≡ x))
Among-put k j m x r h = elim (Bool-cases (k == j)) [
  | inl same ↦
      let e = (eq_iff k j).0 same in
      let here : Among r (m k ++ x ∷ []) =
        rw (put_self k (m k ++ x ∷ []) m) at
          (subst (λ i. Among r (put k (m k ++ x ∷ []) m i)) (sym e) h) in
      elim (Among-append (m k) (x ∷ []) r here) [
        | inl old ↦ inl (subst (λ i. Among r (m i)) e old)
        | inr (inl new) ↦ inr (e, new)
        | inr (inr never) ↦ absurd never
      ]
  | inr apart ↦ inl (rw (put_lem k j (m k ++ x ∷ []) m, apart) at h)
]

-- A new id is free, since every id was generated from a smaller number.
abbrev pub HasDistinctIds : Config → Type 0
HasDistinctIds cfg =
    (i j : ℕ) (a b c d : AccountId)
    → i < u64_max
    → j < u64_max
    → generate_credential_id cfg i a b ≡ generate_credential_id cfg j c d
    → i ≡ j
