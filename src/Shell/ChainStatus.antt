-- ===== src/Shell/ChainStatus.antt =====
-- academic-verification-frontend/src/hooks/blockchain/usePolkadotApi.ts as a run over events, and
-- academic-verification-frontend/src/components/blockchain/ChainStatus.tsx. Each run of the effect has a
-- number; the node's answers, new blocks, the change of a dependency and the unmounting are events.
use academic_verification.Prelude.{
  ℕ, ◌+◌, ltb, eqb, String, Bool, true, false, not, ◌&&◌, Option, none, some, is_some, List, [],
  ◌∷◌, map, if◌then◌else◌,
}

-- A subscription to new blocks: `promised` until the node has answered.
pub data Subscription : Type 0 where
  promised running ended : Subscription

-- One run of the effect that subscribed: its subscription, and whether its variable `unsubscribe` is
-- set.
pub record EffectRun : Type 0 where
  pub number : ℕ
  pub subscription : Subscription
  pub unsubscribe : Bool

-- `next` is the number of the next run that subscribes, `live` the one whose function for the cleanup is
-- still to be called.
pub record HookState : Type 0 where
  pub is_connected : Bool
  pub block_number : ℕ
  pub chain_name : String
  pub runs : List EffectRun
  pub next : ℕ
  pub live : Option ℕ

unfoldable pub mounted : (default_name : String) → HookState
mounted default_name = record {
  is_connected = false;
  block_number = 0;
  chain_name = default_name;
  runs = [];
  next = 0;
  live = none;
}

-- `effect` runs the effect, with whether the connection is there and ready.
pub data Event : Type 0 where
  effect : (ready : Bool) → Event
  chain_named : String → Event
  subscribed : (run : ℕ) → Event
  new_head : (run number : ℕ) → Event
  cleanup : Event

abbrev pub on_run : ℕ → (EffectRun → EffectRun) → EffectRun → EffectRun
on_run n f r = if eqb r.number n then f r else r

-- `.then((unsub) => { unsubscribe = unsub; })`; a promise is answered once.
abbrev pub answered : EffectRun → EffectRun
answered r = elim r.subscription [
  | promised ↦ record r { subscription = running; unsubscribe = true }
  | _ ↦ r
]

-- The function that the effect returns.
abbrev pub cleaned : EffectRun → EffectRun
cleaned r = if r.unsubscribe then record r { subscription = ended } else r

abbrev pub clean : Option ℕ → List EffectRun → List EffectRun
clean none rs = rs
clean (some n) rs = map (on_run n cleaned) rs

abbrev pub subscription_of : ℕ → List EffectRun → Option Subscription
subscription_of n [] = none
subscription_of n (r ∷ rs) = if eqb r.number n then some r.subscription else subscription_of n rs

-- A block is delivered by a subscription that runs.
abbrev pub delivers : Option Subscription → Bool
delivers none = false
delivers (some sub) = elim sub [ running ↦ true | _ ↦ false ]

unfoldable pub step : Event → HookState → HookState
step (effect false) s = record s { is_connected = false; live = none }
step (effect true) s = record s {
  is_connected = true;
  runs = record { number = s.next; subscription = promised; unsubscribe = false } ∷ s.runs;
  next = s.next + 1;
  live = some s.next;
}
step (chain_named name) s = record s { chain_name = name }
step (subscribed n) s = record s { runs = map (on_run n answered) s.runs }
step (new_head n number) s =
    if delivers (subscription_of n s.runs) then record s { block_number = number } else s
step cleanup s = record s { runs = clean s.live s.runs; live = none }

unfoldable pub run : List Event → HookState → HookState
unfolding step
run [] s = s
run (e ∷ es) s = run es (step e s)

-- What `ChainStatus` shows.
pub data StatusView : Type 0 where
  connecting offline : StatusView
  online : (chain_name : String) (block_number : Option ℕ) → StatusView

unfoldable pub chain_status : (is_ready : Bool) (error : Option String) → HookState → StatusView
chain_status is_ready error s =
    if not is_ready && not (is_some error)
    then connecting
    else if is_some error
    then offline
    else online s.chain_name (if ltb 0 s.block_number then some s.block_number else none)
