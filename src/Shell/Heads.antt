-- ===== src/Shell/Heads.antt =====
-- What becomes of the subscription to new blocks when the page is left.
use academic_verification.Prelude.{ℕ, ◌<◌, eqb, Bool, true, false, Option, none, some, ◌≡◌}
use academic_verification.Shell.ChainStatus.{
  Subscription, promised, running, ended, HookState, subscription_of,
}

-- Whether the node has answered.
abbrev is_answered : Subscription → Bool
is_answered promised = false
is_answered running = true
is_answered ended = true

abbrev is_live : ℕ → Option ℕ → Bool
is_live n none = false
is_live n (some m) = eqb m n

-- A subscription of which the hook has let go.
record IsLeft (n : ℕ) (sub : Subscription) (s : HookState) : Type 0 where
  kept : subscription_of n s.runs ≡ some sub
  left : is_live n s.live ≡ false
  old : n < s.next
