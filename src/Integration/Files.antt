-- ===== src/Integration/Files.antt =====
-- `generateFileHash`, `verifyFileHash`, `storeFileReference`, `getFileReference`, `parseMetadata` and
-- `encodeMetadata` of academic-verification-frontend/src/lib/blockchain/integration.ts. The
-- reading of a file, the hash function of `@polkadot/util-crypto`, `JSON.parse` and
-- `JSON.stringify` are parameters; the storage is the text that it keeps under `file_references`.
pub mod Laws
mod Tests
use academic_verification.Prelude.{
  ℕ, String, Bool, false, ◌==◌, Option, none, some, List, [], ◌∷◌, Settled, ok, err, ◌>>=◌, or_else,
  lookup, set_key, str_or, if◌then◌else◌,
}

-- A file, with what its reader gives: the bytes, or the error of `onerror`.
pub record FileBlob : Type 0 where
  pub name : String
  pub size : ℕ
  pub file_type : String
  pub bytes : Settled (List ℕ)

-- What is kept of a file.
pub record FileReference : Type 0 where
  pub name : String
  pub size : ℕ
  pub file_type : String
  pub hash : String
  pub stored_at : ℕ

abbrev pub References : Type 0
References = List (String × FileReference)

-- What the parser of the storage gives: `null`, or an object.
pub data Stored : Type 0 where
  null_stored : Stored
  object : References → Stored

unfoldable pub generate_file_hash : (List ℕ → Settled String) → FileBlob → Settled String
generate_file_hash blake2 f = elim f.bytes [
  | ok bytes ↦ blake2 bytes
  | err m ↦ err "Failed to read file"
]

unfoldable pub verify_file_hash : (List ℕ → Settled String) → FileBlob → String → Bool
unfolding generate_file_hash
verify_file_hash blake2 f expected_hash =
    or_else (generate_file_hash blake2 f >>= λ actual. ok (actual == expected_hash)) false

-- `stored[hash] = metadata`, which throws on `null`
unfoldable pub with_reference : String → FileReference → Stored → Settled References
with_reference hash r null_stored = err "Cannot set properties of null"
with_reference hash r (object m) = ok (set_key hash r m)

unfoldable pub reference_in : String → Stored → Settled (Option FileReference)
reference_in hash null_stored = err "Cannot read properties of null"
reference_in hash (object m) = ok (lookup hash m)

module _ (parse : String → Settled Stored) (print : References → String) where
  -- `JSON.parse(localStorage.getItem('file_references') || '{}')`
  abbrev pub read_references : Option String → Settled Stored
  read_references item = parse (str_or item "{}")

  -- The new text of the storage, and the hash that is returned.
  unfoldable pub store_file_reference :
      (List ℕ → Settled String) → ℕ → FileBlob → Option String → Settled (String × String)
  unfolding generate_file_hash with_reference
  store_file_reference blake2 now f item = do
    hash ← generate_file_hash blake2 f
    stored ← read_references item
    m ←
        with_reference hash
          (record {
            name = f.name;
            size = f.size;
            file_type = f.file_type;
            hash = hash;
            stored_at = now;
          })
          stored
    ok (print m, hash)

  unfoldable pub get_file_reference : String → Option String → Option FileReference
  unfolding reference_in
  get_file_reference hash item =
      or_else (read_references item >>= λ stored. reference_in hash stored) none

-- Parsed metadata: a JSON value, or the object with the text that could not be parsed.
pub data Metadata {ℓ} (Json : Type ℓ) : Type ℓ where
  empty : Metadata Json
  parsed : Json → Metadata Json
  as_text : String → Metadata Json

unfoldable pub metadata_of {ℓ} : {Json : Type ℓ} → String → Settled Json → Metadata Json
metadata_of text (ok j) = parsed j
metadata_of text (err m) = as_text text

unfoldable pub parse_metadata {ℓ} :
    {Json : Type ℓ} → (String → Settled Json) → Option String → Metadata Json
unfolding metadata_of
parse_metadata parse none = empty
parse_metadata parse (some text) = if text == "" then empty else metadata_of text (parse text)

unfoldable pub encode_metadata {ℓ} : {Json : Type ℓ} → (Json → String) → Json → String
encode_metadata print j = print j
