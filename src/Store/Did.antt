-- ===== src/Store/Did.antt =====
-- academic-verification-frontend/src/store/did.store.ts. `setDID` reads the clock, an argument here.
-- The persistence of the store is the middleware's.
pub mod Laws
use academic_verification.Prelude.{
  ℕ, String, Bool, true, false, not, ◌==◌, ◌&&◌, Option, none, some, is_some, List, [], ◌∷◌, ◌++◌,
  filter,
}
use academic_verification.Constants.{DidStatus, no_did, active}

pub record PublicKey : Type 0 where
  pub id : String
  pub key_type : String
  pub public_key : String
  pub added_at : ℕ

pub record DidState : Type 0 where
  pub has_did : Bool
  pub status : DidStatus
  pub did_address : Option String
  pub public_keys : List PublicKey
  pub is_institution : Bool
  pub institution_name : Option String
  pub created_at : Option ℕ

abbrev pub initial : DidState
initial = record {
  has_did = false;
  status = no_did;
  did_address = none;
  public_keys = [];
  is_institution = false;
  institution_name = none;
  created_at = none;
}

unfoldable pub set_did : ℕ → String → List PublicKey → DidState → DidState
set_did now address keys s = record s {
  has_did = true;
  did_address = some address;
  public_keys = keys;
  status = active;
  created_at = some now;
}

unfoldable pub set_institution : String → DidState → DidState
set_institution name s = record s { is_institution = true; institution_name = some name }

unfoldable pub set_status : DidStatus → DidState → DidState
set_status status s = record s { status = status }

unfoldable pub add_public_key : PublicKey → DidState → DidState
add_public_key key s = record s { public_keys = s.public_keys ++ key ∷ [] }

unfoldable pub remove_public_key : String → DidState → DidState
remove_public_key key_id s = record s {
  public_keys = filter (λ key. not (key.id == key_id)) s.public_keys;
}

unfoldable pub clear_did : DidState → DidState
clear_did s = initial

unfoldable pub check_did_exists : DidState → Bool
check_did_exists s = s.has_did && is_some s.did_address

-- Every way in which the store changes.
pub data Action : Type 0 where
  create : ℕ → String → List PublicKey → Action
  institution : String → Action
  status : DidStatus → Action
  add_key : PublicKey → Action
  remove_key : String → Action
  clear : Action

unfoldable pub perform : Action → DidState → DidState
unfolding set_did set_institution set_status add_public_key remove_public_key clear_did
perform (create now address keys) s = set_did now address keys s
perform (institution name) s = set_institution name s
perform (status st) s = set_status st s
perform (add_key key) s = add_public_key key s
perform (remove_key id) s = remove_public_key id s
perform clear s = clear_did s

unfoldable pub perform_all : List Action → DidState → DidState
perform_all [] s = s
perform_all (a ∷ as') s = perform_all as' (perform a s)
