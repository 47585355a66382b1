-- ===== src/Provider/Balance.antt =====
-- academic-verification-frontend/src/hooks/blockchain/useBalance.ts, on a page with a connection. Each
-- run of the effect has a number and its own `unsubscribe`; the cleanup of a run calls it if the
-- promise of the subscription has given it by then. `formatBalance` is a parameter.
pub mod Laws
mod Tests
use academic_verification.Prelude.{
  ℕ, suc, ◌+◌, eqb, String, Bool, true, false, not, ◌&&◌, ◌||◌, ◌==◌, Option, none, some, List, [],
  ◌∷◌, map, decimal, if◌then◌else◌,
}

pub record BalanceInfo : Type 0 where
  pub free : String
  pub reserved : String
  pub frozen : String
  pub total : String
  pub formatted : String

-- The subscription of one run of the effect.
pub record Run : Type 0 where
  pub number : ℕ
  pub owner : String
  pub unsubscribe : Bool
  pub ended : Bool

pub record BalanceState : Type 0 where
  pub account : Option String
  pub current : Option ℕ
  pub next : ℕ
  pub runs : List Run
  pub balance : Option BalanceInfo
  -- the store's `balance`, and the account whose balance it is
  pub stored : Option (String × String)
  pub loading : Bool

abbrev pub initial : BalanceState
initial = record {
  account = none;
  current = none;
  next = 0;
  runs = [];
  balance = none;
  stored = none;
  loading = false;
}

pub data Event : Type 0 where
  -- another account is selected, so the effect runs again
  switched : Option String → Event
  subscribed : ℕ → Event
  not_subscribed : ℕ → Event
  updated : (run free reserved frozen : ℕ) → Event

abbrev pub is_numbered : Option ℕ → Run → Bool
is_numbered none r = false
is_numbered (some n) r = eqb r.number n

-- The cleanup of a run.
abbrev pub cleaned : Option ℕ → Run → Run
cleaned o r = if is_numbered o r && r.unsubscribe then record r { ended = true } else r

abbrev pub answered : ℕ → Run → Run
answered n r = if eqb r.number n then record r { unsubscribe = true } else r

-- The run of that number, while its subscription lasts.
abbrev pub lasting : ℕ → List Run → Option Run
lasting n [] = none
lasting n (r ∷ rs) =
    let rest = lasting n rs in if eqb r.number n && not r.ended then some r else rest

-- The callback of a subscription.
unfoldable pub show_balance : Option Run → BalanceInfo → BalanceState → BalanceState
show_balance none info s = s
show_balance (some r) info s = record s {
  balance = some info;
  stored = some (r.owner, info.formatted);
}

-- The cleanup, and the effect for the new account; an empty address is none.
unfoldable pub run_effect : Option String → BalanceState → BalanceState
run_effect none s = record s { account = none; current = none; balance = none }
run_effect (some a) s =
    if a == "" then record s { account = some a; current = none; balance = none } else record s {
      account = some a;
      current = some s.next;
      next = suc s.next;
      runs = record { number = s.next; owner = a; unsubscribe = false; ended = false } ∷ s.runs;
      loading = true;
    }

module _ (format_balance : String → String) where
  unfoldable pub balance_of : ℕ → ℕ → ℕ → BalanceInfo
  unfolding decimal
  balance_of free reserved frozen = record {
    free = decimal free;
    reserved = decimal reserved;
    frozen = decimal frozen;
    total = decimal (free + reserved);
    formatted = format_balance (decimal (free + reserved));
  }

  unfoldable pub step : Event → BalanceState → BalanceState
  unfolding balance_of show_balance run_effect
  step (switched o) s = run_effect o (record s { runs = map (cleaned s.current) s.runs })
  step (subscribed n) s = record s { runs = map (answered n) s.runs; loading = false }
  step (not_subscribed n) s = record s { loading = false }
  step (updated n free reserved frozen) s =
      show_balance (lasting n s.runs) (balance_of free reserved frozen) s
