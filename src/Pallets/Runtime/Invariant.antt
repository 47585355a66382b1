-- ===== src/Pallets/Runtime/Invariant.antt =====
-- What holds of the storage of the three pallets after any calls in any order.
use academic_verification.Prelude.{
  ℕ, suc, ◌<◌, ◌≤◌, true, some, ◌≡◌, refl, ap, ◌∙◌, arith, is_some, inl, inr,
}
use academic_verification.Pallets.Base.{H256, Origin, Result, ok, err, u64_max, Config}
use academic_verification.Pallets.Did.{DidStorage}
use academic_verification.Pallets.Did.Calls as DidCalls
use academic_verification.Pallets.Did.Laws as DidLaws
use academic_verification.Pallets.Did.Sound as DidSound
use academic_verification.Pallets.Credential.{Credential, CredentialStorage}
use academic_verification.Pallets.Credential.Calls as CredentialCalls
use academic_verification.Pallets.Credential.Index.{IsIndexed, HasDistinctIds}
use academic_verification.Pallets.Credential.Changed.{HasOrigin, Evolves, Evolves-refl}
use academic_verification.Pallets.Credential.Accepted.{MayIssue}
use academic_verification.Pallets.Credential.Counter.{room_before}
use academic_verification.Pallets.Credential.Sound as CredentialSound
use academic_verification.Pallets.Credential.Sound.{IsSoundStep}
use academic_verification.Pallets.Runtime.{
  Runtime, RuntimeCall, did, credential, reputation, committed, apply,
}

-- The issuer of a credential is an institution with a document, and its holder has one.
pub record IsEntitled (dids : DidStorage) (c : Credential) : Type 0 where
  pub institution : is_some (dids.institutions c.issuer) ≡ true
  pub issuer_did : is_some (dids.did_documents c.issuer) ≡ true
  pub holder_did : is_some (dids.did_documents c.holder) ≡ true

pub record IsSound (cfg : Config) (r : Runtime) : Type 0 where
  pub dids : DidLaws.IsSound cfg r.block_number r.did
  pub indexed : IsIndexed cfg r.credential
  pub entitled :
      (j : H256) (c : Credential) → r.credential.credentials j ≡ some c → IsEntitled r.did c

-- From one runtime to a later one.
pub record Advances (r t : Runtime) : Type 0 where
  pub keeps : DidLaws.Keeps r.did t.did
  pub evolves : Evolves r.credential t.credential
  pub later : r.block_number ≤ t.block_number

IsEntitled-Keeps :
    (s t : DidStorage) (c : Credential) → DidLaws.Keeps s t → IsEntitled s c → IsEntitled t c
IsEntitled-Keeps s t c k e = record {
  institution = k.institutions c.issuer e.institution;
  issuer_did = k.documents c.issuer e.issuer_did;
  holder_did = k.documents c.holder e.holder_did;
}

MayIssue-IsEntitled :
    (dids : DidStorage) (c : Credential) → MayIssue dids c.issuer c.holder → IsEntitled dids c
MayIssue-IsEntitled dids c m = record {
  institution = ap is_some m.registered;
  issuer_did = ap is_some m.issuer_known;
  holder_did = ap is_some m.holder_known;
}

Keeps-refl : (s : DidStorage) → DidLaws.Keeps s s
Keeps-refl s = record { documents = λ a p. p; institutions = λ a p. p }

abbrev pub Step : Config → Runtime → Runtime → Type 0
Step cfg r t = IsSound cfg t × Advances r t

module _ (cfg : Config) (r : Runtime) (v : IsSound cfg r) where
  pub same_step : Step cfg r r
  same_step = (
    v,
    record { keeps = Keeps-refl r.did; evolves = Evolves-refl r.credential; later = omega arith },
  )

  did_step :
      (o : Origin) (c : DidCalls.Call) (m : Result DidStorage)
      → DidCalls.dispatch cfg r.block_number o c r.did ≡ m
      → Step cfg r (record r { did = committed r.did m })
  did_step o c (err e) h = same_step
  did_step o c (ok s) h =
      let (sound, keeps) = DidSound.dispatch-step cfg r.block_number o c r.did s v.dids h in
      (
        record {
          dids = sound;
          indexed = v.indexed;
          entitled = λ j a p. IsEntitled-Keeps r.did s a keeps (v.entitled j a p);
        },
        record { keeps = keeps; evolves = Evolves-refl r.credential; later = omega arith },
      )

  of_origin : (j : H256) (a : Credential) → HasOrigin r.credential j a → IsEntitled r.did a
  of_origin j a (b, p, l) =
      let e = v.entitled j b p in
      record {
        institution = ap (λ x. is_some (r.did.institutions x)) l.issuer ∙ e.institution;
        issuer_did = ap (λ x. is_some (r.did.did_documents x)) l.issuer ∙ e.issuer_did;
        holder_did = ap (λ x. is_some (r.did.did_documents x)) l.holder ∙ e.holder_did;
      }

  credential_step :
      (o : Origin) (c : CredentialCalls.Call) (m : Result CredentialStorage)
      → HasDistinctIds cfg
      → r.credential.next_credential_id < u64_max
      → CredentialCalls.dispatch cfg r.block_number r.did o c r.credential ≡ m
      → Step cfg r (record r { credential = committed r.credential m })
  credential_step o c (err e) distinct room h = same_step
  credential_step o c (ok s) distinct room h =
      let w =
        CredentialSound.dispatch-step cfg r.block_number r.did o r.credential s v.indexed c distinct
          room h in
      (
        record {
          dids = v.dids;
          indexed = w.indexed;
          entitled = λ j a p. elim (w.origins j a p) [
            | inl old ↦ of_origin j a old
            | inr new ↦ MayIssue-IsEntitled r.did a new
          ];
        },
        record { keeps = Keeps-refl r.did; evolves = w.evolves; later = omega arith },
      )

pub block_step :
    (cfg : Config) (r : Runtime)
    → IsSound cfg r
    → Step cfg r (record r { block_number = suc r.block_number })
block_step cfg r v = (
  record {
    dids = record {
      documents = λ a d p.
          let old = v.dids.documents a d p in
          record {
            owned = old.owned;
            keyed = old.keyed;
            distinct = old.distinct;
            within = old.within;
            created = old.created;
            updated = omega (arith, old.updated);
          };
      institutions = v.dids.institutions;
    };
    indexed = v.indexed;
    entitled = v.entitled;
  },
  record { keeps = Keeps-refl r.did; evolves = Evolves-refl r.credential; later = omega arith },
)

pub apply_step :
    (cfg : Config) (o : Origin) (c : RuntimeCall) (r : Runtime)
    → HasDistinctIds cfg
    → r.credential.next_credential_id < u64_max
    → IsSound cfg r
    → Step cfg r (apply cfg o c r)
unfolding apply
apply_step cfg o (did c) r distinct room v = did_step cfg r v o c _ refl
apply_step cfg o (credential c) r distinct room v = credential_step cfg r v o c _ distinct room refl
apply_step cfg o (reputation c) r distinct room v = (
  record { dids = v.dids; indexed = v.indexed; entitled = v.entitled },
  record { keeps = Keeps-refl r.did; evolves = Evolves-refl r.credential; later = omega arith },
)

committed_room :
    (cfg : Config) (now : ℕ) (dids : DidStorage) (o : Origin) (c : CredentialCalls.Call)
    (s : CredentialStorage) (m : Result CredentialStorage)
    → CredentialCalls.dispatch cfg now dids o c s ≡ m
    → (committed s m).next_credential_id < u64_max
    → s.next_credential_id < u64_max
committed_room cfg now dids o c s (ok t) h room = room_before cfg now dids o c s t h room
committed_room cfg now dids o c s (err e) h room = room

pub apply_room :
    (cfg : Config) (o : Origin) (c : RuntimeCall) (r : Runtime)
    → (apply cfg o c r).credential.next_credential_id < u64_max
    → r.credential.next_credential_id < u64_max
unfolding apply
apply_room cfg o (did c) r room = room
apply_room cfg o (credential c) r room =
    committed_room cfg r.block_number r.did o c r.credential _ refl room
apply_room cfg o (reputation c) r room = room
