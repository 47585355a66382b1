-- ===== src/Pallets/Credential/Changed.antt =====
-- A change of a credential that leaves what the indexes are about keeps the indexes.
use academic_verification.Prelude.{
  length, ◌≤◌, true, some, ◌==◌, ◌≡◌, refl, ap, sym, subst, ◌∙◌, arith, Bool-cases, Among, inl, inr,
  eq_iff, some-injective, if◌then◌else◌,
}
use academic_verification.Pallets.Base.{
  AccountId, H256, Config, Entries, Entries-put, put, put_lem, put_self,
}
use academic_verification.Pallets.Credential.{
  Credential, CredentialStorage, Event, reference_of, generate_credential_id, deposit_event,
  is_revoked, put_credential,
}
use academic_verification.Pallets.Credential.Index.{IsStored, IsIndexed}

-- What stays of a credential: all but the status and the metadata, and all of it once it is revoked.
pub record Lasts (c d : Credential) : Type 0 where
  pub id : d.credential_id ≡ c.credential_id
  pub hash : d.credential_hash ≡ c.credential_hash
  pub holder : d.holder ≡ c.holder
  pub issuer : d.issuer ≡ c.issuer
  pub type : d.credential_type ≡ c.credential_type
  pub issued_at : d.issued_at ≡ c.issued_at
  pub expires_at : d.expires_at ≡ c.expires_at
  pub final : is_revoked c.status ≡ true → d ≡ c

pub Lasts-refl : (c : Credential) → Lasts c c
Lasts-refl c = record {
  id = refl;
  hash = refl;
  holder = refl;
  issuer = refl;
  type = refl;
  issued_at = refl;
  expires_at = refl;
  final = λ r. refl;
}

pub Lasts-trans : (b c d : Credential) → Lasts b c → Lasts c d → Lasts b d
Lasts-trans b c d v w = record {
  id = w.id ∙ v.id;
  hash = w.hash ∙ v.hash;
  holder = w.holder ∙ v.holder;
  issuer = w.issuer ∙ v.issuer;
  type = w.type ∙ v.type;
  issued_at = w.issued_at ∙ v.issued_at;
  expires_at = w.expires_at ∙ v.expires_at;
  final = λ r.
      let same = v.final r in
      w.final (ap (λ (x : Credential). is_revoked x.status) same ∙ r) ∙ same;
}

-- From one storage to a later one: the credentials last, and so do the hashes.
pub record Evolves (s t : CredentialStorage) : Type 0 where
  pub credentials :
      (j : H256) (b : Credential)
      → s.credentials j ≡ some b
      → (a : Credential) × (t.credentials j ≡ some a) × Lasts b a
  pub hashes : (h id : H256) → s.credential_by_hash h ≡ some id → t.credential_by_hash h ≡ some id
  pub counter : s.next_credential_id ≤ t.next_credential_id
  pub issuers :
      (a : AccountId) → length (s.credentials_by_issuer a) ≤ length (t.credentials_by_issuer a)

-- Where a credential of the later storage comes from.
abbrev pub HasOrigin : CredentialStorage → H256 → Credential → Type 0
HasOrigin s j a = (b : Credential) × (s.credentials j ≡ some b) × Lasts b a

pub Evolves-refl : (s : CredentialStorage) → Evolves s s
Evolves-refl s = record {
  credentials = λ j b p. (b, p, Lasts-refl b);
  hashes = λ h id p. p;
  counter = omega arith;
  issuers = λ a. omega arith;
}

pub Evolves-trans : (s t u : CredentialStorage) → Evolves s t → Evolves t u → Evolves s u
Evolves-trans s t u v w = record {
  credentials = λ j b p.
      let (c, q, l) = v.credentials j b p in
      let (d, r, m) = w.credentials j c q in (d, r, Lasts-trans b c d l m);
  hashes = λ h id p. w.hashes h id (v.hashes h id p);
  counter = omega (arith, v.counter, w.counter);
  issuers = λ a. omega (arith, v.issuers a, w.issuers a);
}

module _ (cfg : Config) (s t : CredentialStorage) (v : IsIndexed cfg s) (id : H256)
    (c d : Credential) (e : Event) (old : s.credentials id ≡ some c) (same : Lasts c d)
    (written : put_credential id d e s ≡ t) where
  -- What was stored is stored still, with its identity.
  changed :
      (j : H256) (b : Credential)
      → s.credentials j ≡ some b
      → (a : Credential) × (put id (some d) s.credentials j ≡ some a) × Lasts b a
  changed j b p = elim (Bool-cases (id == j)) [
    | inl here ↦
        let at_id = (eq_iff id j).0 here in
        let was : c ≡ b = some-injective c b (sym old ∙ ap s.credentials at_id ∙ p) in
        (
          d,
          sym (ap (λ i. put id (some d) s.credentials i) at_id)
              ∙ put_self id (some d) s.credentials,
          subst (λ x. Lasts x d) was same,
        )
    | inr apart ↦ (
      b,
      put_lem id j (some d) s.credentials
          ∙ ap (λ q. if q then some d else s.credentials j) apart
          ∙ p,
      Lasts-refl b,
    )
  ]

  changed_stored : IsStored cfg s id c → IsStored cfg (put_credential id d e s) id d
  unfolding deposit_event
  changed_stored h = record {
    named = same.id ∙ h.named;
    hashed = ap s.credential_by_hash same.hash ∙ h.hashed;
    held =
        subst (λ r. Among r (s.credentials_by_holder d.holder)) (reference_same)
          (subst (λ a. Among (reference_of c) (s.credentials_by_holder a)) (sym same.holder)
            h.held);
    issued = subst (λ a. Among id (s.credentials_by_issuer a)) (sym same.issuer) h.issued;
    counter = h.counter;
    below = h.below;
    generated =
        h.generated
        ∙ sym (ap (λ a. generate_credential_id cfg h.counter a c.holder) same.issuer)
        ∙ sym (ap (λ a. generate_credential_id cfg h.counter d.issuer a) same.holder);
  }
    where
      reference_same : reference_of c ≡ reference_of d
      reference_same = cc (same.id, same.type)

  pub put_credential-IsIndexed : IsIndexed cfg t
  unfolding deposit_event
  put_credential-IsIndexed = subst (IsIndexed cfg) written (record {
    stored =
        Entries-put (IsStored cfg (put_credential id d e s)) s.credentials id d
          (changed_stored (v.stored id c old)) (λ j b p. same_elsewhere (v.stored j b p));
    found = λ h i p.
        let (b, q, f) = v.found h i p in let (a, q', w) = changed i b q in (a, q', w.hash ∙ f);
    held = λ a r m.
        let (b, q, f, g) = v.held a r m in
        let (b', q', w) = changed r.credential_id b q in
        (b', q', w.holder ∙ f, cc (w.id, w.type, g));
    authored = λ a i m.
        let (b, q, f) = v.authored a i m in
        let (b', q', w) = changed i b q in (b', q', w.issuer ∙ f);
  })
    where
      same_elsewhere :
          {j : H256} {b : Credential}
          → IsStored cfg s j b
          → IsStored cfg (put_credential id d e s) j b
      same_elsewhere h = record {
        named = h.named;
        hashed = h.hashed;
        held = h.held;
        issued = h.issued;
        counter = h.counter;
        below = h.below;
        generated = h.generated;
      }

  pub put_credential-Evolves : Evolves s t
  unfolding deposit_event
  put_credential-Evolves = subst (Evolves s) written (record {
    credentials = changed;
    hashes = λ h i p. p;
    counter = omega arith;
    issuers = λ a. omega arith;
  })

  pub put_credential-HasOrigin : Entries (HasOrigin s) t.credentials
  unfolding deposit_event
  put_credential-HasOrigin =
      subst (λ (u : CredentialStorage). Entries (HasOrigin s) u.credentials) written
        (Entries-put (HasOrigin s) s.credentials id d (c, old, same)
          (λ j b p. (b, p, Lasts-refl b)))
