-- ===== src/Pallets/Did/Sound.antt =====
-- Every call of pallets/did keeps the invariant of its storage.
use academic_verification.Prelude.{
  ℕ, Bool, true, false, not, some, [], ◌∷◌, ◌==◌, ◌≡◌, refl, arith, is_some, filter, length, ltb,
  length-filter, All-append, All-filter,
}
use academic_verification.Pallets.Base.{
  Bytes, H256, did, did_already_exists, DidError, did_inactive, public_key_already_exists,
  public_key_not_found, too_many_public_keys, AccountId, Origin, ok, Config, try_push,
  try_push-eq-some, signed-eq-ok, ensure-eq-ok, ok_or-eq-ok, root-eq-ok, ok-injective, not-eq-true,
}
use academic_verification.Pallets.Did
use academic_verification.Pallets.Did.{
  KeyType, PublicKeyEntry, DidDocument, Institution, DidStorage, deposit_event, has_key,
}
use academic_verification.Pallets.Did.Calls.{
  Call, dispatch, create_did, add_public_key, remove_public_key, deactivate_did, reactivate_did,
  register_institution, verify_institution, revoke_institution,
}
use academic_verification.Pallets.Did.Laws.{
  IsKeyed, IsDocument, IsSound, SoundStep, HasDistinctKeys-snoc, HasDistinctKeys-filter,
  put_did-step, put_institution-step,
}

module _ (cfg : Config) (now : ℕ) (s t : DidStorage) (v : IsSound cfg now s) where
  -- The entry of a key that is added.
  abbrev entry : Bytes → KeyType → PublicKeyEntry
  entry key type = record { key_id = cfg.blake2_256 key; key_type = type; public_key = key }

  create_did-step :
      (o : Origin) (key : Bytes) (type : KeyType)
      → Did.create_did cfg now o key type s ≡ ok t
      → SoundStep cfg now s t
  unfolding Did.create_did
  create_did-step o key type h =
      let (who, _, h1) = signed-eq-ok o _ h in
      let (_, h2) =
        ensure-eq-ok (not (is_some (s.did_documents who))) (did did_already_exists) _ h1 in
      let (keys, pushed, h3) =
        ok_or-eq-ok (try_push cfg.max_public_keys [] (entry key type)) (did too_many_public_keys) _
          h2 in
      let written = ok-injective _ _ h3 in
      let (grown, room) = try_push-eq-some cfg.max_public_keys [] keys (entry key type) pushed in
      put_did-step cfg now s v who _ _ t
        (record {
          owned = refl;
          keyed = rw grown (refl, tt);
          distinct = rw grown (refl, tt);
          within = room;
          created = omega arith;
          updated = omega arith;
        })
        written

  add_public_key-step :
      (o : Origin) (key : Bytes) (type : KeyType)
      → Did.add_public_key cfg now o key type s ≡ ok t
      → SoundStep cfg now s t
  unfolding Did.add_public_key
  add_public_key-step o key type h =
      let (who, _, h1) = signed-eq-ok o _ h in
      let (d, old, h2) = ok_or-eq-ok _ _ _ h1 in
      let (_, h3) = ensure-eq-ok (d.controller == who) (did DidError.not_authorized) _ h2 in
      let (_, h4) = ensure-eq-ok d.active (did did_inactive) _ h3 in
      let (fresh, h5) =
        ensure-eq-ok (not (has_key (cfg.blake2_256 key) d.public_keys))
          (did public_key_already_exists) _ h4 in
      let (keys, pushed, h6) =
        ok_or-eq-ok (try_push cfg.max_public_keys d.public_keys (entry key type))
          (did too_many_public_keys) _ h5 in
      let written = ok-injective _ _ h6 in
      let (grown, room) =
        try_push-eq-some cfg.max_public_keys d.public_keys keys (entry key type) pushed in
      let w = v.documents who d old in
      put_did-step cfg now s v who _ _ t
        (record {
          owned = w.owned;
          keyed =
              rw grown
                (All-append (IsKeyed cfg) d.public_keys (entry key type ∷ []) w.keyed (refl, tt));
          distinct = rw grown (
              HasDistinctKeys-snoc d.public_keys (entry key type)
                (not-eq-true (has_key (cfg.blake2_256 key) d.public_keys) fresh) w.distinct);
          within = room;
          created = omega (arith, w.created, w.updated);
          updated = omega arith;
        })
        written

  remove_public_key-step :
      (o : Origin) (key_id : H256)
      → Did.remove_public_key cfg now o key_id s ≡ ok t
      → SoundStep cfg now s t
  unfolding Did.remove_public_key
  remove_public_key-step o key_id h =
      let other : PublicKeyEntry → Bool = λ k. not (k.key_id == key_id) in
      let (who, _, h1) = signed-eq-ok o _ h in
      let (d, old, h2) = ok_or-eq-ok _ _ _ h1 in
      let (_, h3) = ensure-eq-ok (d.controller == who) (did DidError.not_authorized) _ h2 in
      let (_, h4) =
        ensure-eq-ok (ltb (length (filter other d.public_keys)) (length d.public_keys))
          (did public_key_not_found) _ h3 in
      let written = ok-injective _ _ h4 in
      let w = v.documents who d old in
      put_did-step cfg now s v who _ _ t
        (record {
          owned = w.owned;
          keyed = All-filter (IsKeyed cfg) other d.public_keys w.keyed;
          distinct = HasDistinctKeys-filter other d.public_keys w.distinct;
          within = omega (arith, w.within, length-filter other d.public_keys);
          created = omega (arith, w.created, w.updated);
          updated = omega arith;
        })
        written

  -- A document of which only the activity and the block of the update change.
  touched :
      (who : AccountId) (d : DidDocument) (b : Bool)
      → s.did_documents who ≡ some d
      → IsDocument cfg now who (record d { active = b; updated_at = now })
  touched who d b old =
      let w = v.documents who d old in
      record {
        owned = w.owned;
        keyed = w.keyed;
        distinct = w.distinct;
        within = w.within;
        created = omega (arith, w.created, w.updated);
        updated = omega arith;
      }

  deactivate_did-step : (o : Origin) → Did.deactivate_did cfg now o s ≡ ok t → SoundStep cfg now s t
  unfolding Did.deactivate_did
  deactivate_did-step o h =
      let (who, _, h1) = signed-eq-ok o _ h in
      let (d, old, h2) = ok_or-eq-ok _ _ _ h1 in
      let (_, h3) = ensure-eq-ok _ _ _ h2 in
      let written = ok-injective _ _ h3 in
      put_did-step cfg now s v who _ _ t (touched who d false old) written

  reactivate_did-step : (o : Origin) → Did.reactivate_did cfg now o s ≡ ok t → SoundStep cfg now s t
  unfolding Did.reactivate_did
  reactivate_did-step o h =
      let (who, _, h1) = signed-eq-ok o _ h in
      let (d, old, h2) = ok_or-eq-ok _ _ _ h1 in
      let (_, h3) = ensure-eq-ok _ _ _ h2 in
      let written = ok-injective _ _ h3 in
      put_did-step cfg now s v who _ _ t (touched who d true old) written

  register_institution-step :
      (o : Origin) (name : Bytes)
      → Did.register_institution cfg now o name s ≡ ok t
      → SoundStep cfg now s t
  unfolding Did.register_institution
  register_institution-step o name h =
      let (who, _, h1) = signed-eq-ok o _ h in
      let (_, h2) = ensure-eq-ok _ _ _ h1 in
      let (known, h3) = ensure-eq-ok _ _ _ h2 in
      let (_, h4) = ensure-eq-ok _ _ _ h3 in
      let written = ok-injective _ _ h4 in
      put_institution-step cfg now s v who _ _ t (refl, known) written

module _ (cfg : Config) (now : ℕ) (s t : DidStorage) (v : IsSound cfg now s) (o : Origin)
    (a : AccountId) where
  verify_institution-step : Did.verify_institution o a s ≡ ok t → SoundStep cfg now s t
  unfolding Did.verify_institution
  verify_institution-step h =
      let (_, h1) = root-eq-ok o _ h in
      let (i, old, h2) = ok_or-eq-ok _ _ _ h1 in
      put_institution-step cfg now s v a _ _ t (v.institutions a i old) (ok-injective _ _ h2)

  revoke_institution-step : Did.revoke_institution o a s ≡ ok t → SoundStep cfg now s t
  unfolding Did.revoke_institution
  revoke_institution-step h =
      let (_, h1) = root-eq-ok o _ h in
      let (i, old, h2) = ok_or-eq-ok _ _ _ h1 in
      put_institution-step cfg now s v a _ _ t (v.institutions a i old) (ok-injective _ _ h2)

-- A call that succeeds keeps the invariant, and removes nothing.
pub dispatch-step :
    (cfg : Config) (now : ℕ) (o : Origin) (c : Call) (s t : DidStorage)
    → IsSound cfg now s
    → dispatch cfg now o c s ≡ ok t
    → SoundStep cfg now s t
unfolding dispatch
dispatch-step cfg now o (create_did k y) s t v h = create_did-step cfg now s t v o k y h
dispatch-step cfg now o (add_public_key k y) s t v h = add_public_key-step cfg now s t v o k y h
dispatch-step cfg now o (remove_public_key k) s t v h = remove_public_key-step cfg now s t v o k h
dispatch-step cfg now o deactivate_did s t v h = deactivate_did-step cfg now s t v o h
dispatch-step cfg now o reactivate_did s t v h = reactivate_did-step cfg now s t v o h
dispatch-step cfg now o (register_institution n) s t v h =
    register_institution-step cfg now s t v o n h
dispatch-step cfg now o (verify_institution a) s t v h = verify_institution-step cfg now s t v o a h
dispatch-step cfg now o (revoke_institution a) s t v h = revoke_institution-step cfg now s t v o a h
