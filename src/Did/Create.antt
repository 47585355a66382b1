-- ===== src/Did/Create.antt =====
-- academic-verification-frontend/src/components/did/CreateDIDForm.tsx. The form's state is a record, with
-- the DID store in it; a toast is modelled by its kind and its title. Parameters: the generator of
-- mnemonics, the key pair of the keyring, the clock, and the transaction's promise, with the updates
-- that it reports. The clipboard and the download of the backup are left out.
pub mod Laws
pub mod Session
mod Tests
use Prim.Native.String
use academic_verification.Prelude.{
  ℕ, String, Bool, true, false, not, ◌==◌, ◌&&◌, ◌||◌, Option, none, some, List, [], ◌∷◌, ◌++◌,
  Settled, ok, err, ◌>>=◌, str_or, includes, if◌then◌else◌,
}
use academic_verification.Store.Did.{DidState, PublicKey, set_did}
use academic_verification.Transactions.Submit.{
  TransactionResult, TransactionStatus, Phase, idle, signing, submitting, in_block, finalized,
}
use academic_verification.Transactions.Extrinsic.{KeyType, ed25519, sr25519, ecdsa, Submission}
use academic_verification.Transactions.Calls.{create_did}
use academic_verification.Did.HexBytes.{bytes_of, without_prefix}
use academic_verification.Provider.Wallet.{Toast, success, info, error}

pub data Step : Type 0 where
  select generate backup confirm submit : Step

pub record GeneratedKeys : Type 0 where
  pub public_key : String
  pub mnemonic : String
  pub address : String

-- `createDIDSchema`
pub record CreateForm : Type 0 where
  pub key_type : KeyType
  pub backup_confirmed : Bool

pub record CreateState : Type 0 where
  pub form : CreateForm
  pub step : Step
  pub generated_keys : Option GeneratedKeys
  pub show_mnemonic : Bool
  pub is_submitting : Bool
  pub transaction_status : String
  pub did : DidState
  pub sent : List Submission
  pub created : List String
  pub toasts : List Toast

unfoldable pub key_type_name : KeyType → String
key_type_name ed25519 = "Ed25519"
key_type_name sr25519 = "Sr25519"
key_type_name ecdsa = "ECDSA"

abbrev pub toast : Toast → CreateState → CreateState
toast t s = record s { toasts = s.toasts ++ t ∷ [] }

-- The wallet's keyring: a mnemonic of twelve words, and the pair that a mnemonic gives for a type.
pub record Keyring : Type 0 where
  pub mnemonic_generate : Settled String
  pub add_from_mnemonic : KeyType → String → Settled (String × String)

-- The keys of `generateKeys`, or the error.
unfoldable pub new_keys : Keyring → KeyType → Settled GeneratedKeys
new_keys k t = do
  mnemonic ← k.mnemonic_generate
  (public_key, address) ← k.add_from_mnemonic t mnemonic
  ok (record { public_key = public_key; mnemonic = mnemonic; address = address })

unfoldable pub show_keys : Settled GeneratedKeys → CreateState → CreateState
show_keys (ok keys) s =
    toast (success "Keys generated successfully")
      (record s { generated_keys = some keys; step = backup })
show_keys (err m) s = record (toast (error "Failed to generate keys") s) { step = select }

unfoldable pub generate_keys : Keyring → CreateState → CreateState
unfolding show_keys new_keys
generate_keys k s = show_keys (new_keys k s.form.key_type) (record s { step = generate })

unfoldable pub regenerate_keys : Keyring → CreateState → CreateState
unfolding generate_keys
regenerate_keys k s = generate_keys k (toast (info "Generating new keys...") s)

-- `Start Over`
unfoldable pub start_over : CreateState → CreateState
start_over s = record s { step = select; generated_keys = none }

-- `match` gives `null` for the empty text, on which `map` throws.
unfoldable pub or_null : String → Settled (List ℕ)
unfolding bytes_of
or_null String.[] = err "Cannot read properties of null"
or_null (String.◌∷◌ c digits) = ok (bytes_of (String.◌∷◌ c digits))

-- `publicKeyBytes`
unfoldable pub public_key_bytes : String → Settled (List ℕ)
unfolding or_null without_prefix
public_key_bytes public_key = or_null (without_prefix public_key)

-- The callback for the updates.
unfoldable pub on_status : TransactionStatus → CreateState → CreateState
on_status u s =
    let s' = record s { transaction_status = u.message } in
    elim u.status [
      | signing ↦ toast (info "Please sign the transaction in your wallet") s'
      | in_block ↦ toast (info "Transaction included in block") s'
      | _ ↦ s'
    ]

unfoldable pub on_statuses : List TransactionStatus → CreateState → CreateState
unfolding on_status
on_statuses [] s = s
on_statuses (u ∷ us) s = on_statuses us (on_status u s)

-- The message of the `catch`.
unfoldable pub error_text : String → String
error_text m =
    if includes m "1010"
    then "Insufficient balance for transaction fee"
    else if includes m "rejected"
    then "Transaction was rejected"
    else if includes m "DidAlreadyExists"
    then "DID already exists for this account"
    else str_or (some m) "Failed to create DID"

unfoldable pub fail : String → CreateState → CreateState
unfolding error_text
fail m s = record (toast (error (error_text m)) s) {
  is_submitting = false;
  transaction_status = "";
}

unfoldable pub use_result : ℕ → GeneratedKeys → TransactionResult → CreateState → CreateState
unfolding fail set_did key_type_name
use_result now keys r s =
    if r.success
    then record (toast (success "DID created successfully!") s) {
      did =
          set_did now keys.address
            (record {
              id = "primary_key";
              key_type = key_type_name s.form.key_type;
              public_key = keys.public_key;
              added_at = now;
            }
              ∷ [])
            s.did;
      created = s.created ++ keys.address ∷ [];
      is_submitting = false;
      transaction_status = "";
    }
    else fail (str_or r.error "Transaction failed") s

-- What follows the promise; one that stays pending is not followed.
unfoldable pub answered : ℕ → GeneratedKeys → Option TransactionResult → CreateState → CreateState
unfolding use_result
answered now keys none s = s
answered now keys (some r) s = use_result now keys r s

-- What a submission is answered: the updates, and the result unless the promise stays pending.
pub record Answer : Type 0 where
  pub updates : List TransactionStatus
  pub result : Option TransactionResult

unfoldable pub send :
    ℕ
    → (Submission → Answer)
    → GeneratedKeys
    → String
    → Settled (List ℕ)
    → CreateState
    → CreateState
unfolding answered fail on_statuses create_did
send now call keys account (err m) s = fail m s
send now call keys account (ok bytes) s =
    let tx = create_did account bytes s.form.key_type in
    let s' = on_statuses (call tx).updates (record s { sent = s.sent ++ tx ∷ [] }) in
    answered now keys (call tx).result s'

-- `onSubmit`; `none` for the submission stands for `!transactions || !isReady`.
unfoldable pub submit_keys :
    ℕ
    → Option (Submission → Answer)
    → Option String
    → Option GeneratedKeys
    → CreateState
    → CreateState
unfolding send public_key_bytes
submit_keys now (some call) (some account) (some keys) s =
    send now call keys account (public_key_bytes keys.public_key)
      (record s { is_submitting = true })
submit_keys now connection account keys s =
    toast (error "Wallet not connected or blockchain not ready") s

-- `handleSubmit(onSubmit)`: the form library calls it for a form that is valid.
unfoldable pub on_submit :
    ℕ → Option (Submission → Answer) → Option String → CreateState → CreateState
unfolding submit_keys
on_submit now connection account s =
    if s.form.backup_confirmed then submit_keys now connection account s.generated_keys s else s
