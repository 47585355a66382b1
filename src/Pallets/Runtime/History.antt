-- ===== src/Pallets/Runtime/History.antt =====
-- Whatever happens on the chain: the invariant of its storage, and what lasts.
use academic_verification.Prelude.{◌<◌, some, ◌≡◌, arith}
use academic_verification.Pallets.Base.{H256, u64_max, Config}
use academic_verification.Pallets.Credential.{Credential}
use academic_verification.Pallets.Credential.Index.{HasDistinctIds}
use academic_verification.Pallets.Credential.Indexed.{HasNoCollision, HasNoCollision-HasDistinctIds}
use academic_verification.Pallets.Credential.Changed.{Lasts, Evolves-trans}
use academic_verification.Pallets.Runtime.{Runtime, genesis, Reach, here, call, block}
use academic_verification.Pallets.Runtime.Invariant.{
  IsSound, Advances, Step, same_step, block_step, apply_step, apply_room,
}

Advances-trans : (r s t : Runtime) → Advances r s → Advances s t → Advances r t
Advances-trans r s t v w = record {
  keeps = record {
    documents = λ a p. w.keeps.documents a (v.keeps.documents a p);
    institutions = λ a p. w.keeps.institutions a (v.keeps.institutions a p);
  };
  evolves = Evolves-trans r.credential s.credential t.credential v.evolves w.evolves;
  later = omega (arith, v.later, w.later);
}

pub Reach_room :
    (cfg : Config) (r t : Runtime)
    → Reach cfg r t
    → t.credential.next_credential_id < u64_max
    → r.credential.next_credential_id < u64_max
Reach_room cfg r t here room = room
Reach_room cfg r t (call {s} path o c) room = Reach_room cfg r s path (apply_room cfg o c s room)
Reach_room cfg r t (block {s} path) room = Reach_room cfg r s path room

-- From a sound runtime, as long as the numbers for ids last, whatever calls are made by whomever
-- leads to a sound one in which all credentials last.
pub Reach-step :
    (cfg : Config) (r t : Runtime)
    → HasDistinctIds cfg
    → IsSound cfg r
    → Reach cfg r t
    → t.credential.next_credential_id < u64_max
    → Step cfg r t
Reach-step cfg r t distinct v here room = same_step cfg r v
Reach-step cfg r t distinct v (call {s} path o c) room =
    let earlier = apply_room cfg o c s room in
    let (w, a) = Reach-step cfg r s distinct v path earlier in
    let (w', b) = apply_step cfg o c s distinct earlier w in (w', Advances-trans r s _ a b)
Reach-step cfg r t distinct v (block {s} path) room =
    let (w, a) = Reach-step cfg r s distinct v path room in
    let (w', b) = block_step cfg s w in (w', Advances-trans r s _ a b)

pub genesis-IsSound : (cfg : Config) → IsSound cfg genesis
genesis-IsSound cfg = record {
  dids = record { documents = λ a d p. cc; institutions = λ a i p. cc };
  indexed = record {
    stored = λ j c p. cc;
    found = λ h i p. cc;
    held = λ a r m. elim m [ ];
    authored = λ a i m. elim m [ ];
  };
  entitled = λ j c p. cc;
}

-- From the empty storage, whatever calls of the three pallets are made by whomever, in whatever
-- order, as long as the numbers for ids last and the hash function does not collide: a document
-- stands under its controller, its keys have different ids and are no more than allowed; an
-- institution has a document; the credentials and their three indexes agree; and each credential was
-- issued by a registered institution to a holder with a document.
pub Reach-IsSound :
    (cfg : Config) (t : Runtime)
    → HasNoCollision cfg
    → Reach cfg genesis t
    → t.credential.next_credential_id < u64_max
    → IsSound cfg t
Reach-IsSound cfg t injective path room =
    (Reach-step cfg genesis t (HasNoCollision-HasDistinctIds cfg injective) (genesis-IsSound cfg)
      path room).0

-- A credential that is stored stays stored under its id and its hash, for the same holder, of the same
-- issuer, type, issue and expiration, whatever calls are made; once it is revoked, nothing of it
-- changes any more.
pub Reach-Lasts :
    (cfg : Config) (s t : Runtime) (id : H256) (c : Credential)
    → HasNoCollision cfg
    → Reach cfg genesis s
    → Reach cfg s t
    → t.credential.next_credential_id < u64_max
    → s.credential.credentials id ≡ some c
    → (d : Credential) × (t.credential.credentials id ≡ some d)
      × Lasts c d
      × (t.credential.credential_by_hash c.credential_hash ≡ some id)
Reach-Lasts cfg s t id c injective before after room stored =
    let distinct = HasNoCollision-HasDistinctIds cfg injective in
    let early = Reach_room cfg s t after room in
    let v = Reach-IsSound cfg s injective before early in
    let (_, a) = Reach-step cfg s t distinct v after room in
    let (d, kept, lasts) = a.evolves.credentials id c stored in
    (d, kept, lasts, a.evolves.hashes c.credential_hash id (v.indexed.stored id c stored).hashed)
