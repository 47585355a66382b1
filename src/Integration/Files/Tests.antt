-- ===== src/Integration/Files/Tests.antt =====
-- A run of the storage, with a codec for the references that reads back what it prints.
use Prim.Native.Char.{code}
use academic_verification.Prelude.{
  ℕ, zero, suc, eqb, String, some, List, [], ◌∷◌, length, Settled, ok, ◌≡◌, ◌≢◌, refl, set_key,
  if◌then◌else◌,
}
use academic_verification.Integration.Files.{
  FileBlob, FileReference, References, Stored, object, store_file_reference, get_file_reference,
  with_reference,
}
use academic_verification.Integration.Files.Laws.{get_file_reference-store_file_reference}

print_number : ℕ → String → String
print_number zero rest = String.◌∷◌ "0" rest
print_number (suc n) rest = String.◌∷◌ "1" (print_number n rest)

read_number : String → ℕ × String
read_number String.[] = (0, "")
read_number (String.◌∷◌ c s) =
    let (n, rest) = read_number s in if eqb (code c) 49 then (suc n, rest) else (0, s)

read-print_number : (n : ℕ) (rest : String) → read_number (print_number n rest) ≡ (n, rest)
unfolding read_number print_number
read-print_number zero rest = refl
read-print_number (suc n) rest = rw (read-print_number n rest) refl

print_text : String → String → String
print_text String.[] rest = String.◌∷◌ "0" rest
print_text (String.◌∷◌ c s) rest = String.◌∷◌ "1" (String.◌∷◌ c (print_text s rest))

read_text : String → String × String
read_text String.[] = ("", "")
read_text (String.◌∷◌ t String.[]) = ("", "")
read_text (String.◌∷◌ t (String.◌∷◌ c s)) =
    let (text, rest) = read_text s in
    if eqb (code t) 49 then (String.◌∷◌ c text, rest) else ("", String.◌∷◌ c s)

print_reference : String × FileReference → String → String
print_reference (key, r) rest = print_text key (
    print_text r.name (
      print_number r.size
        (print_text r.file_type (print_text r.hash (print_number r.stored_at rest)))))

read-print_text : (t rest : String) → read_text (print_text t rest) ≡ (t, rest)
unfolding read_text print_text
read-print_text String.[] String.[] = refl
read-print_text String.[] (String.◌∷◌ c rest) = refl
read-print_text (String.◌∷◌ c t) rest = rw (read-print_text t rest) refl

read_reference : String → (String × FileReference) × String
read_reference s =
    let (key, s₁) = read_text s in
    let (name, s₂) = read_text s₁ in
    let (size, s₃) = read_number s₂ in
    let (file_type, s₄) = read_text s₃ in
    let (hash, s₅) = read_text s₄ in
    let (stored_at, rest) = read_number s₅ in
    (
      (
        key,
        record {
          name = name;
          size = size;
          file_type = file_type;
          hash = hash;
          stored_at = stored_at;
        },
      ),
      rest,
    )

read-print_reference :
    (r : String × FileReference) (rest : String)
    → read_reference (print_reference r rest) ≡ (r, rest)
unfolding read_reference print_reference
read-print_reference (key, r) rest =
    rw
      (
        read-print_text key (
            print_text r.name (
              print_number r.size
                (print_text r.file_type (print_text r.hash (print_number r.stored_at rest))))),
        read-print_text r.name (
            print_number r.size
              (print_text r.file_type (print_text r.hash (print_number r.stored_at rest)))),
        read-print_number r.size
            (print_text r.file_type (print_text r.hash (print_number r.stored_at rest))),
        read-print_text r.file_type (print_text r.hash (print_number r.stored_at rest)),
        read-print_text r.hash (print_number r.stored_at rest),
        read-print_number r.stored_at rest,
      )
      refl

print_entries : References → String
print_entries [] = ""
print_entries (r ∷ rs) = print_reference r (print_entries rs)

read_entries : ℕ → String → References
read_entries zero s = []
read_entries (suc n) s = let (r, rest) = read_reference s in r ∷ read_entries n rest

read-print_entries : (m : References) → read_entries (length m) (print_entries m) ≡ m
unfolding read_entries print_entries
read-print_entries [] = refl
read-print_entries (r ∷ rs) =
    rw (read-print_reference r (print_entries rs), read-print_entries rs) refl

print : References → String
print m = print_number (length m) (print_entries m)

parse : String → Settled Stored
parse s = let (n, rest) = read_number s in ok (object (read_entries n rest))

parse-print : (m : References) → parse (print m) ≡ ok (object m)
unfolding parse print
parse-print m = rw (read-print_number (length m) (print_entries m), read-print_entries m) refl

print_not_empty : (m : References) → print m ≢ ""
unfolding print print_number
print_not_empty [] e = cc
print_not_empty (r ∷ rs) e = cc

abbrev diploma : FileBlob
diploma = record {
  name = "diploma.pdf";
  size = 3;
  file_type = "application/pdf";
  bytes = ok (1 ∷ (2 ∷ (3 ∷ [])));
}

abbrev old : FileReference
old = record { name = "a.pdf"; size = 1; file_type = "pdf"; hash = "0xaa"; stored_at = 5 }

abbrev blake2 : List ℕ → Settled String
blake2 bytes = ok "0xbb"

abbrev new_text : String
new_text = print (
    (
      "0xbb",
      record {
        name = "diploma.pdf";
        size = 3;
        file_type = "application/pdf";
        hash = "0xbb";
        stored_at = 7;
      },
    )
    ∷ [])

stored : store_file_reference parse print blake2 7 diploma (some (print [])) ≡ ok (new_text, "0xbb")
unfolding store_file_reference with_reference set_key parse print print_number print_entries
    read_number read_entries
stored = refl

get_file_reference-store_file_reference_example :
    (get_file_reference parse print "0xbb" (some new_text)
      ≡ some (record {
        name = "diploma.pdf";
        size = 3;
        file_type = "application/pdf";
        hash = "0xbb";
        stored_at = 7;
      }))
    × ((other : String)
        → other ≢ "0xbb"
        → get_file_reference parse print other (some new_text)
          ≡ get_file_reference parse print other (some (print [])))
get_file_reference-store_file_reference_example =
    get_file_reference-store_file_reference parse print parse-print print_not_empty blake2 7 diploma
      (some (print [])) new_text "0xbb" stored
