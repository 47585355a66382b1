-- ===== src/Integration/Network/Laws.antt =====
-- What the helpers about the chain promise, next to `submitTransaction` where both decode an error.
use academic_verification.Prelude.{
  ℕ, ◌<◌, String, true, false, List, [], ◌∷◌, ◌++◌, filter, map, Settled, ok, err, ◌>>=◌, or_else,
  all_settled, ◌≡◌, ◌↔◌, refl, ap, ◌∙◌, sym, arith, if◌then◌else◌, filter-append, Settled-cases,
  ok-injective, inl, inr, Bool-cases, All,
}
use mathlib.Core.List.{append-nil, append_assoc}
use academic_verification.Transactions.Submit.{DispatchError, Registry, error_message}
use academic_verification.Integration.Network.{
  ChainEvent, Subscription, Happening, opened, received, unsubscribe, is_wanted, get_error_message,
  check_sufficient_balance, batch_query, happen, subscribe_to_events,
}

-- Where the registry answers, the message is the one that `submitTransaction` reports; where it
-- throws, there is a message all the same.
pub get_error_message-error_message :
    (find_meta_error : Registry) (e : DispatchError)
    → get_error_message find_meta_error e
      ≡ or_else (error_message find_meta_error e) "Unknown module error"
unfolding get_error_message error_message
get_error_message-error_message find_meta_error e = elim (Bool-cases e.is_module) [
  | inl coded ↦ rw coded (elim (Settled-cases (find_meta_error e.as_module)) [
    | inl (d, found) ↦ rw found refl
    | inr (m, missing) ↦ rw missing refl
  ])
  | inr other ↦ rw other refl
]

-- An account passes the test exactly if the chain answers with a free balance above the amount.
pub check_sufficient_balance_iff :
    (free : Settled ℕ) (required_amount : ℕ)
    → ((check_sufficient_balance free required_amount).sufficient ≡ true)
      ↔ ((n : ℕ) × (free ≡ ok n) × (required_amount < n))
unfolding check_sufficient_balance
check_sufficient_balance_iff (ok n) k = (
  λ h. (n, refl, ground (arith, h)),
  λ (m, e, h). let same = ok-injective n m e in ground (arith, same, h),
)
check_sufficient_balance_iff (err m) k = (λ h. cc, λ (n, e, h). cc)

all_ok : {A : Type 0} (values : List A) → all_settled (map (λ a. ok a) values) ≡ ok values
all_ok [] = refl
all_ok (a ∷ rest) = ap (λ m. m >>= λ more. ok (a ∷ more)) (all_ok rest)

-- A batch of queries that all succeed gives their values, in order.
pub batch_query-all : {A : Type 0} (values : List A) → batch_query (map (λ a. ok a) values) ≡ values
unfolding batch_query
batch_query-all values = ap (λ m. or_else m []) (all_ok values)

abbrev pub all_received : List Happening → List ChainEvent
all_received [] = []
all_received (received events ∷ hs) = events ++ all_received hs
all_received (opened ∷ hs) = all_received hs
all_received (unsubscribe ∷ hs) = all_received hs

abbrev pub IsListening : Happening → Type 0
IsListening unsubscribe = ⊥
IsListening h = Unit

still_open : (s t : Subscription) → s.ended ≡ false → (if s.ended then s else t) ≡ t
still_open s t e = rw e refl

-- As long as nobody unsubscribes, the callback gets the events of that pallet and name, all of them
-- and in order.
pub subscribe_to_events-delivered :
    (pallet_name event_name : String) (hs : List Happening) (s : Subscription)
    → All IsListening hs
    → s.asked ≡ false
    → s.ended ≡ false
    → (subscribe_to_events pallet_name event_name hs s).delivered
      ≡ s.delivered ++ filter (is_wanted pallet_name event_name) (all_received hs)
unfolding subscribe_to_events happen
subscribe_to_events-delivered p n [] s h a e = sym (append-nil s.delivered)
subscribe_to_events-delivered p n (opened ∷ hs) s (_, h) a e =
    subscribe_to_events-delivered p n hs _ h a a
subscribe_to_events-delivered p n (received events ∷ hs) s (_, h) a e =
    let wanted = filter (is_wanted p n) in
    let s' = record s { delivered = s.delivered ++ wanted events } in
    ap (λ t. (subscribe_to_events p n hs t).delivered) (still_open s s' e)
    ∙ subscribe_to_events-delivered p n hs s' h a e
    ∙ append_assoc s.delivered (wanted events) (wanted (all_received hs))
    ∙ ap (λ l. s.delivered ++ l) (sym (filter-append (is_wanted p n) events (all_received hs)))
subscribe_to_events-delivered p n (unsubscribe ∷ hs) s (v, h) a e = elim v [ ]
