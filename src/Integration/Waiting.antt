-- ===== src/Integration/Waiting.antt =====
-- `waitForInBlock` of academic-verification-frontend/src/lib/blockchain/integration.ts. The promise,
-- the timer of the timeout and the chain of polls are the fields of `Waiting`; the environment
-- chooses the events: the timer fires while it is set, and a poll that was begun is answered with the
-- hashes of a block's extrinsics, or with an error.
pub mod Laws
mod Tests
use academic_verification.Prelude.{
  String, Bool, true, false, ◌==◌, ◌||◌, Option, none, some, List, [], ◌∷◌, Settled, ok, err,
  get_or, if◌then◌else◌,
}

pub data Event : Type 0 where
  timed_out : Event
  polled : Settled (List String) → Event

pub record Waiting : Type 0 where
  pub outcome : Option (Settled Bool)
  pub timer_set : Bool
  pub polling : Bool

-- Only the first `resolve` or `reject` of a promise has an effect.
abbrev pub settle : Settled Bool → Waiting → Waiting
settle r w = record w { outcome = some (get_or w.outcome r) }

-- The loop over the extrinsics.
unfoldable pub contains : String → List String → Bool
contains tx_hash [] = false
contains tx_hash (h ∷ hs) = (h == tx_hash) || contains tx_hash hs

-- One run of `checkTransaction`; without the transaction it is run again.
unfoldable pub check_transaction : String → Settled (List String) → Waiting → Waiting
unfolding contains
check_transaction tx_hash (ok hashes) w =
    if contains tx_hash hashes
    then settle (ok true) (record w { timer_set = false; polling = false })
    else w
check_transaction tx_hash (err m) w =
    settle (err m) (record w { timer_set = false; polling = false })

unfoldable pub step : String → Event → Waiting → Waiting
unfolding check_transaction
step tx_hash timed_out w =
    if w.timer_set then settle (err "Transaction timeout") (record w { timer_set = false }) else w
step tx_hash (polled answer) w = if w.polling then check_transaction tx_hash answer w else w

unfoldable pub run : String → List Event → Waiting → Waiting
unfolding step
run tx_hash [] w = w
run tx_hash (e ∷ es) w = run tx_hash es (step tx_hash e w)

unfoldable pub wait_for_in_block : String → List Event → Waiting
unfolding run
wait_for_in_block tx_hash es =
    run tx_hash es (record { outcome = none; timer_set = true; polling = true })
