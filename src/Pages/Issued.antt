-- ===== src/Pages/Issued.antt =====
-- academic-verification-frontend/src/pages/IssuedCredentials.tsx. The page's state is a record, a toast
-- is modelled by its kind and its title, without those about the progress of a transaction. The chain
-- is an argument: `none` stands for `!queries`. `JSON.parse`, `toLowerCase`, `hexToString`, the
-- user's answer to `confirm` and the transaction's promise are parameters; `none` for the result of
-- a transaction is a promise that stays pending.
pub mod Laws
mod Tests
use Prim.Native.String
use text.Mathlib.Text.{starts_with}
use academic_verification.Prelude.{
  ℕ, ◌*◌, ltb, String, Bool, true, false, not, ◌==◌, ◌&&◌, ◌||◌, Option, none, some, List, [], ◌∷◌,
  ◌++◌, map, filter, length, count, Settled, ok, err, ◌>>=◌, str_or, truthy_str, if◌then◌else◌,
  includes,
}
use academic_verification.Hex.{decode_hex}
use academic_verification.Chain.{Api}
use academic_verification.Integration.Format.{Credential}
use academic_verification.Transactions.Submit.{TransactionResult}
use academic_verification.Queries.Real
use academic_verification.Provider.Wallet.{Toast, success, error}

pub data IssuedStatus : Type 0 where
  active revoked : IssuedStatus

pub record IssuedCredential : Type 0 where
  pub id : String
  pub holder : String
  pub holder_name : Option String
  pub credential_type : String
  pub degree_name : String
  pub issued_at : ℕ
  pub status : IssuedStatus
  pub metadata : String

-- What the page reads of parsed metadata: `null`, or two properties.
pub data Parsed : Type 0 where
  null_metadata : Parsed
  fields : (degree_name program_name : Option String) → Parsed

pub record IssuedState : Type 0 where
  pub credentials : List IssuedCredential
  pub loading : Bool
  pub refreshing : Bool
  pub revoking : Option String
  pub toasts : List Toast

pub record Stats : Type 0 where
  pub total : ℕ
  pub active : ℕ
  pub revoked : ℕ

abbrev pub toast : Toast → IssuedState → IssuedState
toast t s = record s { toasts = s.toasts ++ t ∷ [] }

-- `issuedAtTimestamp`
unfoldable pub issued_at_ms : ℕ → ℕ
issued_at_ms t = if ltb 0 t && ltb t 10000000000 then t * 1000 else t

module _ (hex_to_string : String → Settled String) (parse_json : String → Settled Parsed) where
  -- The name and the metadata from a text that was parsed; a property of `null` throws.
  unfoldable pub name_and_metadata : String → Settled Parsed → String × String
  name_and_metadata decoded (ok (fields d p)) = (str_or d (str_or p "Academic Credential"), decoded)
  name_and_metadata decoded (ok null_metadata) = (decoded, decoded)
  name_and_metadata decoded (err m) = (decoded, decoded)

  unfoldable pub read_metadata : Option String → String × String
  unfolding name_and_metadata
  read_metadata none = ("Academic Credential", "")
  read_metadata (some m) =
      if m == ""
      then ("Academic Credential", "")
      else name_and_metadata (decode_hex hex_to_string m) (parse_json (decode_hex hex_to_string m))

  -- One item of `formattedCredentials`.
  unfoldable pub issued_of : Credential → IssuedCredential
  unfolding read_metadata issued_at_ms
  issued_of c = record {
    id = c.id;
    holder = c.holder;
    holder_name = none;
    credential_type = c.credential_type;
    degree_name = (read_metadata c.metadata).0;
    issued_at = issued_at_ms c.issued_at;
    status = if c.revoked then revoked else active;
    metadata = (read_metadata c.metadata).1;
  }

  -- The `try` block for the answer of the query, which does not reject, and `finally`.
  unfoldable pub show_issued : List Credential → IssuedState → IssuedState
  unfolding issued_of
  show_issued [] s = record s { credentials = []; loading = false }
  show_issued (c ∷ cs) s =
      toast (success "Found issued credential(s)")
        (record s { credentials = map issued_of (c ∷ cs); loading = false })

  unfoldable pub fetch_issued_credentials : Option Api → Option String → IssuedState → IssuedState
  unfolding show_issued
  fetch_issued_credentials none did s = s
  fetch_issued_credentials (some api) none s = s
  fetch_issued_credentials (some api) (some did) s =
      if did == ""
      then s
      else show_issued (Real.get_credentials_by_issuer api did) (record s { loading = true })

  unfoldable pub handle_refresh : Option Api → Option String → IssuedState → IssuedState
  unfolding fetch_issued_credentials
  handle_refresh chain did s =
      toast (success "Credentials refreshed")
        (record (fetch_issued_credentials chain did (record s { refreshing = true })) {
          refreshing = false;
        })

-- `credentialIdBytes`
unfoldable pub id_bytes : String → String
id_bytes id = if starts_with id "0x" then id else String.◌++◌ "0x" id

-- The update of one credential.
unfoldable pub mark_revoked : String → IssuedCredential → IssuedCredential
mark_revoked id c = if c.id == id then record c { status = revoked } else c

-- What `handleRevoke` makes of a result, with `catch` and `finally`.
unfoldable pub conclude_revocation : String → TransactionResult → IssuedState → IssuedState
unfolding mark_revoked
conclude_revocation id r s =
    if r.success
    then record (toast (success "Credential revoked successfully") s) {
      credentials = map (mark_revoked id) s.credentials;
      revoking = none;
    }
    else record (toast (error "Failed to revoke credential") s) { revoking = none }

unfoldable pub await_revocation : String → Option TransactionResult → IssuedState → IssuedState
unfolding conclude_revocation
await_revocation id none s = s
await_revocation id (some r) s = conclude_revocation id r s

-- `handleRevoke`; `revoke` is `transactions.credential.revokeCredential` on the account that is
-- connected, and `none` for it stands for `!transactions || !account || !api`.
unfoldable pub handle_revoke :
    (confirmed : Bool)
    → Option (String → Option TransactionResult)
    → String
    → IssuedState
    → IssuedState
unfolding await_revocation id_bytes
handle_revoke false revoke id s = s
handle_revoke true none id s = toast (error "Blockchain not connected") s
handle_revoke true (some revoke) id s =
    await_revocation id (revoke (id_bytes id)) (record s { revoking = some id })

abbrev pub is_revoked : IssuedStatus → Bool
is_revoked revoked = true
is_revoked active = false

-- `filterStatus`: `none` stands for `all`
unfoldable pub matches_status : Option IssuedStatus → IssuedCredential → Bool
matches_status none c = true
matches_status (some revoked) c = is_revoked c.status
matches_status (some active) c = not (is_revoked c.status)

unfoldable pub matches_search : (lower : String → String) → String → IssuedCredential → Bool
matches_search lower query c =
    (query == "")
    || (includes (lower c.degree_name) (lower query)
        || ((elim c.holder_name [ none ↦ false | some n ↦ includes (lower n) (lower query) ])
            || includes (lower c.holder) (lower query)))

-- `filteredCredentials`
unfoldable pub filtered_credentials :
    (lower : String → String) → String → Option IssuedStatus → IssuedState → List IssuedCredential
unfolding matches_search matches_status
filtered_credentials lower query status s =
    filter (λ c. matches_search lower query c && matches_status status c) s.credentials

-- `stats`
unfoldable pub stats : IssuedState → Stats
stats s = record {
  total = length s.credentials;
  active = count (λ c. not (is_revoked c.status)) s.credentials;
  revoked = count (λ c. is_revoked c.status) s.credentials;
}
