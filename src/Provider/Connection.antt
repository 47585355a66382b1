-- ===== src/Provider/Connection.antt =====
-- academic-verification-frontend/src/providers/PolkadotProvider.tsx and the hook of
-- academic-verification-frontend/src/hooks/blockchain/useBlockchain.ts. The effect runs once; its two
-- timers, the promise of `ApiPromise.create`, that of `isReady` and the unmounting are events, which
-- the environment chooses. A connection is a Boolean: the client library and the node are not modelled.
pub mod Laws
pub mod Late
mod Tests
use academic_verification.Prelude.{
  String, Bool, true, false, not, ◌&&◌, Option, none, some, is_some, List, [], ◌∷◌, ◌++◌,
  if◌then◌else◌,
}
use academic_verification.Provider.Wallet.{Toast, success, info, warning}

-- How far `initApi` has come.
pub data Progress : Type 0 where
  waiting creating awaiting_ready done : Progress

pub record ConnectionState : Type 0 where
  -- the context
  pub api : Bool
  pub is_ready : Bool
  pub error : Option String
  -- the variables of the effect
  pub is_mounted : Bool
  pub api_instance : Bool
  pub progress : Progress
  pub timeout_set : Bool
  pub disconnected : Bool
  pub toasts : List Toast

abbrev pub initial : ConnectionState
initial = record {
  api = false;
  is_ready = false;
  error = none;
  is_mounted = true;
  api_instance = false;
  progress = waiting;
  timeout_set = false;
  disconnected = false;
  toasts = [];
}

pub data Event : Type 0 where
  -- the timer of 1500 ms: the library is loaded, or `initApi` throws
  started : Event
  not_started : String → Event
  -- the timer of 5000 ms
  timed_out : Event
  created : Event
  not_created : String → Event
  ready : Event
  not_ready : String → Event
  unmounted : Event

abbrev pub toast : Toast → ConnectionState → ConnectionState
toast t s = record s { toasts = s.toasts ++ t ∷ [] }

abbrev pub is_at : Progress → Progress → Bool
is_at waiting waiting = true
is_at creating creating = true
is_at awaiting_ready awaiting_ready = true
is_at done done = true
is_at p q = false

-- The `catch` of `initApi`.
unfoldable pub fail : String → ConnectionState → ConnectionState
fail message s =
    if s.is_mounted
    then toast (info "Running in demo mode") (record s { progress = done; error = some message })
    else record s { progress = done }

-- The timeout; its `isReady` is that of the first render, so `false`.
unfoldable pub time_out : ConnectionState → ConnectionState
time_out s =
    if s.is_mounted
    then toast (warning "Running in demo mode") (record s {
      timeout_set = false;
      error = some "Could not connect to blockchain node (timeout)";
    })
    else record s { timeout_set = false }

-- After `ApiPromise.create`.
unfoldable pub create : ConnectionState → ConnectionState
create s = record s {
  api_instance = true;
  timeout_set = false;
  progress = if s.is_mounted then awaiting_ready else done;
}

-- After `isReady`.
unfoldable pub connect : ConnectionState → ConnectionState
connect s =
    toast (success "Connected to blockchain")
      (record s { progress = done; api = true; is_ready = true })

-- The cleanup: it clears the first timer, and disconnects what there is.
unfoldable pub unmount : ConnectionState → ConnectionState
unmount s = record s {
  is_mounted = false;
  progress = if is_at waiting s.progress then done else s.progress;
  disconnected = if s.api_instance then true else s.disconnected;
}

unfoldable pub step : Event → ConnectionState → ConnectionState
unfolding fail time_out create connect unmount
step started s =
    if is_at waiting s.progress then record s { progress = creating; timeout_set = true } else s
step (not_started m) s = if is_at waiting s.progress then fail m s else s
step timed_out s = if s.timeout_set then time_out s else s
step created s = if is_at creating s.progress then create s else s
step (not_created m) s = if is_at creating s.progress then fail m s else s
step ready s = if is_at awaiting_ready s.progress then connect s else s
step (not_ready m) s = if is_at awaiting_ready s.progress then fail m s else s
step unmounted s = if s.is_mounted then unmount s else s

unfoldable pub run : List Event → ConnectionState → ConnectionState
unfolding step
run [] s = s
run (e ∷ es) s = run es (step e s)

-- What `useBlockchain` gives: whether there are transactions and queries, and `isConnected`.
pub record Blockchain : Type 0 where
  pub transactions : Bool
  pub queries : Bool
  pub is_connected : Bool

unfoldable pub use_blockchain : ConnectionState → Option String → Blockchain
use_blockchain s account = record {
  transactions = s.api && s.is_ready;
  queries = s.api && s.is_ready;
  is_connected = s.is_ready && is_some account;
}
