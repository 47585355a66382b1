-- ===== src/Transactions/Submit.antt =====
-- `submitTransaction` of academic-verification-frontend/src/lib/blockchain/transactions.ts. The
-- promise that it returns, the variable `unsub` and the updates reported to the caller are the
-- fields of `Session`. The wallet and the client library choose the events: a result handed to the
-- callback, the return of `signAndSend` with the function that ends the subscription, and a
-- rejection. A status getter is read only under its own flag, so the two block hashes are plain
-- fields.
pub mod Outcome
pub mod Updates
pub mod Subscription
pub mod Tests
use academic_verification.Prelude.{
  String, Bool, true, false, Option, none, some, List, [], ◌∷◌, ◌++◌, ◌&&◌, Settled, ok, err,
  get_or, if◌then◌else◌,
}
use Prim.Native.String

pub data Phase : Type 0 where
  idle signing submitting in_block finalized error : Phase

pub record TransactionStatus : Type 0 where
  pub status : Phase
  pub message : String
  pub block_hash : Option String
  pub error : Option String

pub record TransactionResult : Type 0 where
  pub success : Bool
  pub block_hash : Option String
  pub transaction_hash : Option String
  pub error : Option String

-- `text` is what `toString()` gives.
pub record DispatchError : Type 0 where
  pub is_module : Bool
  pub as_module : String
  pub text : String

pub record SubmittableResult : Type 0 where
  pub is_ready : Bool
  pub is_in_block : Bool
  pub is_finalized : Bool
  pub as_in_block : String
  pub as_finalized : String
  pub dispatch_error : Option DispatchError

-- `api.registry.findMetaError`
pub record Decoded : Type 0 where
  pub section : String
  pub name : String
  pub docs : List String

abbrev pub Registry : Type 0
Registry = String → Settled Decoded

pub record Session : Type 0 where
  pub updates : List TransactionStatus
  pub subscribed : Bool
  pub unsubscribed : Bool
  pub outcome : Option TransactionResult

-- What a `catch` receives: an `Error` with its message, or a value of another type.
pub data Event : Type 0 where
  returned : Event
  result : SubmittableResult → Event
  rejected : Option String → Event

abbrev join_spaces : List String → String
join_spaces [] = ""
join_spaces (d ∷ []) = d
join_spaces (d ∷ (e ∷ ds)) = String.◌++◌ d (String.◌++◌ " " (join_spaces (e ∷ ds)))

-- `${decoded.section}.${decoded.name}: ${decoded.docs.join(' ')}`
unfoldable pub describe : Decoded → String
describe d =
    String.◌++◌ d.section
      (String.◌++◌ "." (String.◌++◌ d.name (String.◌++◌ ": " (join_spaces d.docs))))

-- The message of a dispatch error. Reading the registry may throw.
unfoldable pub error_message : Registry → DispatchError → Settled String
unfolding describe
error_message find_meta_error e =
    if e.is_module
    then elim (find_meta_error e.as_module) [ ok d ↦ ok (describe d) | err m ↦ err m ]
    else ok e.text

abbrev pub signing_update : TransactionStatus
signing_update = record {
  status = signing;
  message = "Waiting for signature...";
  block_hash = none;
  error = none;
}

abbrev pub in_block_update : String → TransactionStatus
in_block_update h = record {
  status = in_block;
  message = "Transaction included in block";
  block_hash = some h;
  error = none;
}

abbrev pub finalized_update : String → TransactionStatus
finalized_update h = record {
  status = finalized;
  message = "Transaction finalized";
  block_hash = some h;
  error = none;
}

abbrev pub error_update : String → TransactionStatus
error_update m = record {
  status = error;
  message = "Transaction failed";
  block_hash = none;
  error = some m;
}

abbrev pub failure : String → TransactionResult
failure m = record { success = false; block_hash = none; transaction_hash = none; error = some m }

abbrev pub success_in : String → String → TransactionResult
success_in tx_hash h = record {
  success = true;
  block_hash = some h;
  transaction_hash = some tx_hash;
  error = none;
}

-- `onStatusUpdate?.(…)`
unfoldable pub report : TransactionStatus → Session → Session
report u s = record s { updates = s.updates ++ u ∷ [] }

-- Only the first call of a promise's `resolve` has an effect.
unfoldable pub resolve : TransactionResult → Session → Session
resolve r s = record s { outcome = some (get_or s.outcome r) }

-- `unsub?.()`
unfoldable pub end_subscription : Session → Session
end_subscription s = if s.subscribed then record s { unsubscribed = true } else s

-- The two reports that every result may cause.
unfoldable pub progress : SubmittableResult → Session → Session
unfolding report
progress r s =
    let ready = if r.is_ready then report signing_update s else s in
    if r.is_in_block then report (in_block_update r.as_in_block) ready else ready

abbrev pub started : Session
started = record {
  updates = signing_update ∷ [];
  subscribed = false;
  unsubscribed = false;
  outcome = none;
}

module _ (find_meta_error : Registry) (tx_hash : String) where
  -- The branch of the callback that reads `dispatchError`. Where the registry throws, the callback
  -- ends there.
  unfoldable pub settle : SubmittableResult → Option DispatchError → Session → Session
  unfolding report resolve end_subscription error_message
  settle r (some e) s = elim (error_message find_meta_error e) [
    | ok m ↦ resolve (failure m) (end_subscription (report (error_update m) s))
    | err _ ↦ s
  ]
  settle r none s =
      if r.is_finalized
      then resolve (success_in tx_hash r.as_finalized)
          (end_subscription (report (finalized_update r.as_finalized) s))
      else s

  -- The callback of `signAndSend`.
  unfoldable pub on_result : SubmittableResult → Session → Session
  unfolding settle progress
  on_result r s = settle r r.dispatch_error (progress r s)

  -- The `catch` of the whole body.
  unfoldable pub on_rejected : Option String → Session → Session
  unfolding report resolve
  on_rejected reason s =
      let message = get_or reason "Unknown error" in
      resolve (failure message) (report (error_update message) s)

  unfoldable pub step : Event → Session → Session
  unfolding on_result on_rejected
  step returned s = record s { subscribed = true }
  step (result r) s = on_result r s
  step (rejected reason) s = on_rejected reason s

  unfoldable pub run : List Event → Session → Session
  unfolding step
  run [] s = s
  run (e ∷ es) s = run es (step e s)

  -- `web3FromAddress` is awaited before anything is sent: it may reject.
  unfoldable pub submit_transaction : Option (Option String) → List Event → Session
  unfolding run
  submit_transaction none events = run events started
  submit_transaction (some reason) events = on_rejected reason started
