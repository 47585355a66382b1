-- ===== src/Pallets/Credential/Indexed.antt =====
-- A credential that is added keeps the indexes, since its id is new.
use academic_verification.Prelude.{
  length, length-append, ◌≤◌, eq_iff, ℕ, ◌<◌, none, some, [], ◌∷◌, ◌++◌, ◌≡◌, ◌≢◌, refl, ap, sym,
  subst, ◌∙◌, arith, Option-cases, Among-append_right, inl, inr,
}
use academic_verification.Pallets.Base.{
  put, AccountId, H256, Bytes, u64_max, Config, Entries, Entries-put, put_self, put_other,
}
use academic_verification.Pallets.Credential.{
  Credential, CredentialReference, CredentialStorage, reference_of, to_le_bytes,
  generate_credential_id,
}
use academic_verification.Pallets.Credential.Index.{
  IsStored, IsFound, IsIndexed, IsAdded, HasDistinctIds, put-Among, Among-put,
}
use academic_verification.Pallets.Credential.Changed.{Lasts-refl, Evolves}

-- The hash function gives different values for different bytes.
abbrev pub HasNoCollision : Config → Type 0
HasNoCollision cfg = (x y : Bytes) → cfg.blake2_256 x ≡ cfg.blake2_256 y → x ≡ y

to_le_bytes-injective :
    (m n : ℕ) (x y : Bytes)
    → m < u64_max
    → n < u64_max
    → to_le_bytes m ++ x ≡ to_le_bytes n ++ y
    → m ≡ n
unfolding to_le_bytes
to_le_bytes-injective m n x y p q e = ground arith

-- Ids that were generated from different numbers differ.
pub HasNoCollision-HasDistinctIds : (cfg : Config) → HasNoCollision cfg → HasDistinctIds cfg
unfolding generate_credential_id
HasNoCollision-HasDistinctIds cfg injective i j a b c d p q e =
    to_le_bytes-injective i j _ _ p q (injective _ _ e)

module _ (cfg : Config) (s : CredentialStorage) (v : IsIndexed cfg s)
    (distinct : HasDistinctIds cfg) (room : s.next_credential_id < u64_max) where
  -- The next id is free.
  pub next_is_free :
      (issuer holder : AccountId)
      → s.credentials (generate_credential_id cfg s.next_credential_id issuer holder) ≡ none
  next_is_free issuer holder =
      let id = generate_credential_id cfg s.next_credential_id issuer holder in
      elim (Option-cases (s.credentials id)) [
        | inl free ↦ free
        | inr (d, taken) ↦
            let h = v.stored id d taken in
            let below : h.counter < s.next_credential_id = h.below in
            let same : s.next_credential_id ≡ h.counter =
              distinct s.next_credential_id h.counter issuer holder d.issuer d.holder room
                (omega arith) h.generated in
            absurd (omega arith)
      ]

module _ (cfg : Config) (s t : CredentialStorage) (c : Credential) (v : IsIndexed cfg s)
    (w : IsAdded cfg c s t) (free : s.credentials c.credential_id ≡ none)
    (unused : s.credential_by_hash c.credential_hash ≡ none) (room : s.next_credential_id < u64_max)
    (generated : c.credential_id
      ≡ generate_credential_id cfg s.next_credential_id c.issuer c.holder) where
  added : t.credentials c.credential_id ≡ some c
  added = rw w.credentials (put_self c.credential_id (some c) s.credentials)

  kept : (j : H256) (d : Credential) → s.credentials j ≡ some d → t.credentials j ≡ some d
  kept j d e =
      let other : c.credential_id ≢ j = λ p. let taken = sym free ∙ ap s.credentials p ∙ e in cc in
      rw w.credentials (put_other c.credential_id j (some c) s.credentials other ∙ e)

  kept_stored : (j : H256) (d : Credential) → IsStored cfg s j d → IsStored cfg t j d
  kept_stored j d h =
      let other : c.credential_hash ≢ d.credential_hash =
        λ p. let taken = sym unused ∙ ap s.credential_by_hash p ∙ h.hashed in cc in
      record {
        named = h.named;
        hashed = rw w.by_hash (
            put_other c.credential_hash d.credential_hash (some c.credential_id)
              s.credential_by_hash other
            ∙ h.hashed);
        held = rw w.by_holder (
            put-Among c.holder d.holder s.credentials_by_holder (reference_of c) (reference_of d)
              h.held);
        issued =
            rw w.by_issuer
              (put-Among c.issuer d.issuer s.credentials_by_issuer c.credential_id j h.issued);
        counter = h.counter;
        below = rw w.counter (omega (arith, h.below, room));
        generated = h.generated;
      }

  new_stored : IsStored cfg t c.credential_id c
  new_stored = record {
    named = refl;
    hashed = rw w.by_hash (put_self c.credential_hash (some c.credential_id) s.credential_by_hash);
    held =
        rw
          (
            w.by_holder,
            put_self c.holder (s.credentials_by_holder c.holder ++ reference_of c ∷ [])
                s.credentials_by_holder,
          )
          (Among-append_right (s.credentials_by_holder c.holder) (reference_of c ∷ [])
            (reference_of c) (inl refl));
    issued =
        rw
          (
            w.by_issuer,
            put_self c.issuer (s.credentials_by_issuer c.issuer ++ c.credential_id ∷ [])
                s.credentials_by_issuer,
          )
          (Among-append_right (s.credentials_by_issuer c.issuer) (c.credential_id ∷ [])
            c.credential_id (inl refl));
    counter = s.next_credential_id;
    below = rw w.counter (omega (arith, room));
    generated = generated;
  }

  found_again : (h id : H256) → IsFound s h id → IsFound t h id
  found_again h id (d, e, f) = (d, kept id d e, f)

  pub IsAdded-IsIndexed : IsIndexed cfg t
  IsAdded-IsIndexed = record {
    stored = subst (Entries (IsStored cfg t)) (sym w.credentials) (
        Entries-put (IsStored cfg t) s.credentials c.credential_id c new_stored
          (λ j d e. kept_stored j d (v.stored j d e)));
    found = subst (Entries (IsFound t)) (sym w.by_hash) (
        Entries-put (IsFound t) s.credential_by_hash c.credential_hash c.credential_id
          (c, added, refl) (λ h id e. found_again h id (v.found h id e)));
    held = λ a r m.
        elim (Among-put c.holder a s.credentials_by_holder (reference_of c) r
          (rw w.by_holder at m)) [
            | inl old ↦ let (d, e, f, g) = v.held a r old in (d, kept r.credential_id d e, f, g)
            | inr (e, f) ↦ (
              c,
              ap (λ (x : CredentialReference). t.credentials x.credential_id) f ∙ added,
              e,
              sym f,
            )
          ];
    authored = λ a id m.
        elim (Among-put c.issuer a s.credentials_by_issuer c.credential_id id
          (rw w.by_issuer at m)) [
            | inl old ↦ let (d, e, f) = v.authored a id old in (d, kept id d e, f)
            | inr (e, f) ↦ (c, ap t.credentials f ∙ added, e)
          ];
  }

  longer : (a : AccountId) → length (s.credentials_by_issuer a) ≤ length (t.credentials_by_issuer a)
  unfolding put
  longer a = rw w.by_issuer (
      ground (
        arith,
        eq_iff c.issuer a,
        length-append (s.credentials_by_issuer c.issuer) (c.credential_id ∷ []),
      ))

  pub IsAdded-Evolves : Evolves s t
  IsAdded-Evolves = record {
    credentials = λ j d e. (d, kept j d e, Lasts-refl d);
    hashes = λ h id e.
        let other : c.credential_hash ≢ h =
          λ p. let taken = sym unused ∙ ap s.credential_by_hash p ∙ e in cc in
        ap (λ m. m h) w.by_hash
        ∙ put_other c.credential_hash h (some c.credential_id) s.credential_by_hash other
        ∙ e;
    counter = rw w.counter (omega (arith, room));
    issuers = longer;
  }
