-- ===== src/Integration/Files/Laws.antt =====
-- What is stored of a file can be found again, and only the file itself passes the test of its hash.
use academic_verification.Prelude.{
  ℕ, String, true, false, ◌==◌, Option, some, List, Settled, ok, sym, Bool-cases, ◌≡◌, ◌≢◌, ◌↔◌,
  refl, ap, ◌∙◌, eq_iff, arith, >>=-eq-ok, ok-injective, lookup, set_key, lookup-set_key, eq_refl,
  Settled-cases, inl, inr,
}
use academic_verification.Integration.Files.{
  FileBlob, FileReference, References, Stored, null_stored, object, generate_file_hash,
  verify_file_hash, read_references, with_reference, store_file_reference, reference_in,
  get_file_reference,
}

-- A file passes the test of a hash exactly if its hash can be computed, and is that one.
pub verify_file_hash_iff :
    (blake2 : List ℕ → Settled String) (f : FileBlob) (expected_hash : String)
    → (verify_file_hash blake2 f expected_hash ≡ true)
      ↔ (generate_file_hash blake2 f ≡ ok expected_hash)
unfolding verify_file_hash
verify_file_hash_iff blake2 f expected_hash = elim (Settled-cases (generate_file_hash blake2 f)) [
  | inl (actual, e) ↦ rw e (
    λ h. ap ok ((eq_iff actual expected_hash).0 h),
    λ h. (eq_iff actual expected_hash).1 (ok-injective actual expected_hash h),
  )
  | inr (m, e) ↦ rw e (λ h. cc, λ h. cc)
]

inserted :
    (hash : String) (r : FileReference) (stored : Stored) (m : References)
    → with_reference hash r stored ≡ ok m
    → (before : References) × (stored ≡ object before) × (m ≡ set_key hash r before)
unfolding with_reference
inserted hash r null_stored m e = cc
inserted hash r (object before) m e = (before, refl, sym (ok-injective _ m e))

module _ (parse : String → Settled Stored) (print : References → String)
    (round_trip : (m : References) → parse (print m) ≡ ok (object m))
    (print_full : (m : References) → print m ≢ "") where
  read-print : (m : References) → read_references parse print (some (print m)) ≡ ok (object m)
  read-print m = elim (Bool-cases (print m == "")) [
    | inl empty ↦ let never = print_full m ((eq_iff (print m) "").0 empty) in elim never [ ]
    | inr other ↦ rw (other, round_trip m) refl
  ]

  found :
      (m : References) (hash : String)
      → get_file_reference parse print hash (some (print m)) ≡ lookup hash m
  unfolding get_file_reference reference_in
  found m hash = rw (read-print m) refl

  found_before :
      (m : References) (hash : String) (item : Option String)
      → read_references parse print item ≡ ok (object m)
      → get_file_reference parse print hash item ≡ lookup hash m
  unfolding get_file_reference reference_in
  found_before m hash item e = rw e refl

  -- The reference of a file, after it was stored, is found under the hash that was returned, with
  -- the file's name, size and type; under any other hash there is what there was before.
  pub get_file_reference-store_file_reference :
      (blake2 : List ℕ → Settled String) (now : ℕ) (f : FileBlob) (item : Option String)
      (text hash : String)
      → store_file_reference parse print blake2 now f item ≡ ok (text, hash)
      → (get_file_reference parse print hash (some text)
          ≡ some (record {
            name = f.name;
            size = f.size;
            file_type = f.file_type;
            hash = hash;
            stored_at = now;
          }))
        × ((other : String)
            → other ≢ hash
            → get_file_reference parse print other (some text)
              ≡ get_file_reference parse print other item)
  unfolding store_file_reference
  get_file_reference-store_file_reference blake2 now f item text hash e =
      let (h, hashed, e₁) = >>=-eq-ok (generate_file_hash blake2 f) _ (text, hash) e in
      let (stored, was, e₂) = >>=-eq-ok (read_references parse print item) _ (text, hash) e₁ in
      let (m, made, e₃) = >>=-eq-ok (with_reference h _ stored) _ (text, hash) e₂ in
      let (before, same, new) = inserted h _ stored m made in
      let both = ok-injective (print m, h) (text, hash) e₃ in
      let printed : print m ≡ text = ap (λ p. p.0) both in
      let named : h ≡ hash = ap (λ p. p.1) both in
      (
        rw (← printed, found m hash, new, lookup-set_key h hash _ before, named, eq_refl hash) refl,
        λ other differs.
            let apart : (h == other) ≡ false = ground (arith, eq_iff h other, named, differs) in
            rw
              (
                ← printed,
                found m other,
                new,
                lookup-set_key h other _ before,
                apart,
                found_before before other item (was ∙ ap ok same),
              )
              refl,
      )
