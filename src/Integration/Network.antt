-- ===== src/Integration/Network.antt =====
-- `getErrorMessage`, `checkSufficientBalance`, `estimateTransactionFee`, `parseAccount`, `batchQuery`
-- and `subscribeToEvents` of academic-verification-frontend/src/lib/blockchain/integration.ts. The
-- answers of the chain and of the client library are arguments.
pub mod Laws
mod Tests
use academic_verification.Prelude.{
  ℕ, ltb, String, Bool, true, false, ◌==◌, ◌&&◌, Option, none, some, List, [], ◌∷◌, ◌++◌, filter,
  Settled, ok, err, ◌>>=◌, or_else, all_settled, decimal, if◌then◌else◌,
}
use academic_verification.Transactions.Submit.{DispatchError, Registry, describe}

unfoldable pub get_error_message : Registry → DispatchError → String
unfolding describe
get_error_message find_meta_error e =
    if e.is_module
    then or_else (find_meta_error e.as_module >>= λ d. ok (describe d)) "Unknown module error"
    else e.text

pub record Balance : Type 0 where
  pub sufficient : Bool
  pub balance : String

-- The free balance is a whole number, which `toString` prints and `BigInt` reads back.
unfoldable pub check_sufficient_balance : Settled ℕ → ℕ → Balance
unfolding decimal
check_sufficient_balance free required_amount =
    or_else (free >>= λ n. ok (record { sufficient = ltb required_amount n; balance = decimal n }))
      (record { sufficient = false; balance = "0" })

unfoldable pub estimate_transaction_fee : Settled ℕ → String
unfolding decimal
estimate_transaction_fee payment_info = or_else (payment_info >>= λ n. ok (decimal n)) "0"

pub data AccountArgument : Type 0 where
  plain : String → AccountArgument
  account : String → AccountArgument

unfoldable pub parse_account : AccountArgument → String
parse_account (plain address) = address
parse_account (account address) = address

unfoldable pub batch_query : {A : Type 0} → List (Settled A) → List A
batch_query queries = or_else (all_settled queries) []

pub record ChainEvent : Type 0 where
  pub section : String
  pub method : String
  pub payload : String

-- The subscription: what the callback was called with, whether its promise has given the function
-- that ends it, and whether that was asked for and done.
pub record Subscription : Type 0 where
  pub delivered : List ChainEvent
  pub is_open : Bool
  pub asked : Bool
  pub ended : Bool

pub data Happening : Type 0 where
  opened : Happening
  received : List ChainEvent → Happening
  unsubscribe : Happening

abbrev pub is_wanted : String → String → ChainEvent → Bool
is_wanted pallet_name event_name e = (e.section == pallet_name) && (e.method == event_name)

-- `unsubscribePromise.then(unsub => unsub())` runs as soon as both have happened.
unfoldable pub happen : String → String → Happening → Subscription → Subscription
happen pallet_name event_name opened s = record s { is_open = true; ended = s.asked }
happen pallet_name event_name (received events) s =
    if s.ended
    then s
    else record s { delivered = s.delivered ++ filter (is_wanted pallet_name event_name) events }
happen pallet_name event_name unsubscribe s = record s { asked = true; ended = s.is_open }

unfoldable pub subscribe_to_events : String → String → List Happening → Subscription → Subscription
unfolding happen
subscribe_to_events pallet_name event_name [] s = s
subscribe_to_events pallet_name event_name (h ∷ hs) s =
    subscribe_to_events pallet_name event_name hs (happen pallet_name event_name h s)
