-- ===== src/Credential/List.antt =====
-- academic-verification-frontend/src/components/credentials/CredentialsList.tsx: the decoding, the
-- search, the filters and the order of the list. `toLowerCase`, `localeCompare` and `hexToString`
-- are parameters; the sort is the stable one that the language prescribes.
pub mod Laws
mod Tests
use academic_verification.Prelude.{
  ℕ, leb, String, Bool, true, false, not, ◌==◌, ◌&&◌, ◌||◌, Option, none, some, List, [], ◌∷◌, map,
  filter, Settled, str_or, if◌then◌else◌, includes,
}
use academic_verification.Hex.{decode_hex}
use academic_verification.Integration.Format.{Credential}
use academic_verification.Credential.Status.{counts_active, counts_revoked, counts_expired}

-- A credential with the fields that only the list and the cards have.
pub record ListedCredential : Type 0 where
  pub credential : Credential
  pub issuer_name : Option String
  pub degree_name : Option String
  pub field_of_study : Option String

pub data FilterStatus : Type 0 where
  all active revoked expired : FilterStatus

pub data SortOption : Type 0 where
  newest oldest name type : SortOption

-- The choices of the user; `none` for the type stands for `all`.
pub record Choices : Type 0 where
  pub search_query : String
  pub filter_status : FilterStatus
  pub filter_type : Option String
  pub sort_by : SortOption

-- `x ? decodeHexString(x) : x`
abbrev pub decode_if_named : (String → Settled String) → Option String → Option String
decode_if_named hex_to_string none = none
decode_if_named hex_to_string (some s) =
    if s == "" then some s else some (decode_hex hex_to_string s)

-- One item of `decodedCredentials`.
unfoldable pub decoded : (String → Settled String) → ListedCredential → ListedCredential
decoded hex_to_string c = record c {
  issuer_name = decode_if_named hex_to_string c.issuer_name;
  degree_name = decode_if_named hex_to_string c.degree_name;
  field_of_study = decode_if_named hex_to_string c.field_of_study;
}

unfoldable pub passes_status : ℕ → FilterStatus → ListedCredential → Bool
passes_status now all c = true
passes_status now active c = counts_active now c.credential
passes_status now revoked c = counts_revoked c.credential
passes_status now expired c = counts_expired now c.credential

unfoldable pub passes_type : Option String → ListedCredential → Bool
passes_type none c = true
passes_type (some t) c = c.credential.credential_type == t

module _ (lower : String → String) where
  abbrev pub mentions : String → Option String → Bool
  mentions query none = false
  mentions query (some s) = includes (lower s) (lower query)

  unfoldable pub passes_search : String → ListedCredential → Bool
  passes_search query c =
      (query == "")
      || (mentions query c.degree_name
          || (mentions query c.field_of_study
              || (mentions query c.issuer_name
                  || mentions query (some c.credential.credential_type))))

  -- The three filters, one after the other.
  unfoldable pub filtered : ℕ → Choices → List ListedCredential → List ListedCredential
  unfolding passes_search passes_status passes_type
  filtered now o cs =
      filter (passes_type o.filter_type)
        (filter (passes_status now o.filter_status) (filter (passes_search o.search_query) cs))

-- Whether `a` may stand before `b`: the comparison does not give a positive number. `before` is
-- `localeCompare(…) <= 0`.
unfoldable pub in_order :
    (before : String → String → Bool) → SortOption → ListedCredential → ListedCredential → Bool
in_order before newest a b = leb b.credential.issued_at a.credential.issued_at
in_order before oldest a b = leb a.credential.issued_at b.credential.issued_at
in_order before name a b = before (str_or a.degree_name "") (str_or b.degree_name "")
in_order before type a b = before a.credential.credential_type b.credential.credential_type

-- A stable sort by insertion.
module _ {A : Type 0} (le : A → A → Bool) where
  unfoldable pub insert : A → List A → List A
  insert a [] = a ∷ []
  insert a (b ∷ bs) = let rest = insert a bs in if le a b then a ∷ (b ∷ bs) else b ∷ rest

  unfoldable pub sort : List A → List A
  unfolding insert
  sort [] = []
  sort (a ∷ rest) = insert a (sort rest)

-- `filteredCredentials`
unfoldable pub filtered_credentials :
    (hex_to_string : String → Settled String)
    → (lower : String → String) → (before : String → String → Bool) → ℕ
    → Choices
    → List ListedCredential
    → List ListedCredential
unfolding decoded filtered in_order sort
filtered_credentials hex_to_string lower before now o cs =
    sort (in_order before o.sort_by) (filtered lower now o (map (decoded hex_to_string) cs))
