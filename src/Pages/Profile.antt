-- ===== src/Pages/Profile.antt =====
-- academic-verification-frontend/src/pages/Institution.tsx. The page's state is a record; a toast is
-- modelled by its kind and its title. The chain is an argument: `none` stands for `!api`. `TextDecoder`
-- and the clock are parameters.
pub mod Laws
mod Tests
use Prim.Native.String
use academic_verification.Prelude.{
  ℕ, ◌*◌, ltb, String, Bool, true, false, ◌==◌, ◌&&◌, Option, none, some, get_or, List, [], ◌∷◌,
  ◌++◌, length, Settled, ok, err, str_or, if◌then◌else◌,
}
use academic_verification.Hex.{Value, str, bytes, other}
use academic_verification.Chain.{Api, InstitutionData, ReputationScore}
use academic_verification.Queries.Plain.{zero_score}
use academic_verification.Did.HexBytes.{bytes_of, without_prefix}
use academic_verification.Provider.Wallet.{Toast, success, error}

-- The page's `InstitutionData`.
pub record InstitutionProfile : Type 0 where
  pub name : String
  pub did : String
  pub verified : Bool
  pub registered_at : ℕ

pub record ProfileState : Type 0 where
  pub institution_data : Option InstitutionProfile
  pub reputation : Option ReputationScore
  pub issued_count : ℕ
  pub loading : Bool
  pub refreshing : Bool
  pub toasts : List Toast

abbrev pub toast : Toast → ProfileState → ProfileState
toast t s = record s { toasts = s.toasts ++ t ∷ [] }

-- `registeredAtMs`, and `Date.now()` for 0.
unfoldable pub registered_at_ms : ℕ → ℕ → ℕ
registered_at_ms now t =
    if ltb 1577836800 t && ltb t 10000000000
    then t * 1000
    else if ltb 0 t && ltb t 1577836800
    then now
    else if ltb 0 t
    then t
    else now

-- The `catch` and the `finally`.
unfoldable pub load_failed : ProfileState → ProfileState
load_failed s = record (toast (error "Failed to load institution data") s) { loading = false }

-- The last part of the `try` block, with the `finally`.
unfoldable pub show_count : Settled (Option (List String)) → ProfileState → ProfileState
unfolding load_failed
show_count (err m) s = load_failed s
show_count (ok ids) s =
    record (toast (success "Institution data loaded from blockchain")
      (record s { issued_count = length (get_or ids []) })) { loading = false }

unfoldable pub show_reputation :
    Api → String → Settled (Option ReputationScore) → ProfileState → ProfileState
unfolding load_failed show_count
show_reputation api did_address (err m) s = load_failed s
show_reputation api did_address (ok score) s =
    show_count (api.credentials_by_issuer did_address)
      (record s { reputation = some (get_or score zero_score) })

module _ (decode_utf8 : List ℕ → String) (now : ℕ) where
  -- `decodedName`, from the name that the store has; a name that is no text has no `startsWith`, so the
  -- `catch` keeps the store's.
  unfoldable pub decoded_name : Option String → Value → String
  unfolding bytes_of without_prefix
  decoded_name kept (str n) =
      if n == ""
      then str_or kept "Institution"
      else str_or (some (decode_utf8 (bytes_of (without_prefix n)))) (str_or kept "Institution")
  decoded_name kept (bytes cs s) = str_or kept "Institution"
  decoded_name kept (other b s) = str_or kept "Institution"

  unfoldable pub profile_of : Option String → String → InstitutionData → InstitutionProfile
  unfolding decoded_name registered_at_ms
  profile_of kept did_address i = record {
    name = decoded_name kept i.name;
    did = str_or i.did did_address;
    verified = get_or i.verified false;
    registered_at = registered_at_ms now (get_or i.registered_at 0);
  }

  unfoldable pub show_institution :
      Api → Option String → String → Settled (Option InstitutionData) → ProfileState → ProfileState
  unfolding load_failed show_reputation profile_of
  show_institution api kept did_address (err m) s = load_failed s
  show_institution api kept did_address (ok none) s =
      record (toast (error "Institution data not found") s) { loading = false }
  show_institution api kept did_address (ok (some i)) s =
      show_reputation api did_address (api.reputation_scores did_address)
        (record s { institution_data = some (profile_of kept did_address i) })

  -- `fetchInstitutionData`, for the name and the address of the DID store.
  unfoldable pub fetch_institution_data :
      Option Api → Option String → Option String → ProfileState → ProfileState
  unfolding show_institution
  fetch_institution_data none kept did s = s
  fetch_institution_data (some api) kept none s = s
  fetch_institution_data (some api) kept (some did) s =
      if did == ""
      then s
      else show_institution api kept did (api.institutions did) (record s { loading = true })

  unfoldable pub handle_refresh :
      Option Api → Option String → Option String → ProfileState → ProfileState
  unfolding fetch_institution_data
  handle_refresh chain kept did s =
      toast (success "Data refreshed")
        (record (fetch_institution_data chain kept did (record s { refreshing = true })) {
          refreshing = false;
        })
