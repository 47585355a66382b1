-- ===== src/Provider/Balance/Laws.antt =====
-- Whose balance is shown.
use academic_verification.Prelude.{
  ℕ, suc, ◌+◌, eqb, String, true, false, not, ◌&&◌, ◌==◌, Option, none, some, some-injective, List,
  [], ◌∷◌, map, ◌≡◌, ◌≢◌, refl, ◌∙◌, ap, All, ◌⊎◌, inl, inr, arith, eq_iff, Bool-cases, decimal,
}
use academic_verification.Provider.Balance.{
  BalanceInfo, Run, BalanceState, initial, Event, switched, subscribed, not_subscribed, updated,
  cleaned, answered, lasting, balance_of, show_balance, run_effect, step,
}

-- Every subscription that lasts is that of the current run, and belongs to the selected account.
abbrev pub IsOwn : Option ℕ → Option String → Run → Type 0
IsOwn current account r = (r.ended ≡ true) ⊎ ((current ≡ some r.number) × (account ≡ some r.owner))

-- Every subscription was answered.
abbrev pub AllAnswered : List Run → Type 0
AllAnswered rs = All (λ r. r.unsubscribe ≡ true) rs

cleaned-ended :
    (c : Option ℕ) (a : Option String) (r : Run)
    → IsOwn c a r
    → r.unsubscribe ≡ true
    → (cleaned c r).ended ≡ true
cleaned-ended c a r (inl e) u = ground (arith, e)
cleaned-ended c a r (inr (e, o)) u = rw (e, u) (ground arith)

cleaned-IsOwn :
    (c : Option ℕ) (a : Option String) (rs : List Run)
    → All (IsOwn c a) rs
    → AllAnswered rs
    → (c' : Option ℕ) (a' : Option String) → All (IsOwn c' a') (map (cleaned c) rs)
cleaned-IsOwn c a [] h u c' a' = tt
cleaned-IsOwn c a (r ∷ rs) (h, hs) (u, us) c' a' =
    (inl (cleaned-ended c a r h u), cleaned-IsOwn c a rs hs us c' a')

answered-IsOwn :
    (c : Option ℕ) (a : Option String) (n : ℕ) (rs : List Run)
    → All (IsOwn c a) rs
    → All (IsOwn c a) (map (answered n) rs)
answered-IsOwn c a n [] h = tt
answered-IsOwn c a n (r ∷ rs) (h, hs) = (one r h, answered-IsOwn c a n rs hs)
  where
    one : (r : Run) → IsOwn c a r → IsOwn c a (answered n r)
    one r h = elim (Bool-cases (eqb r.number n)) [ inl this ↦ rw this h | inr other ↦ rw other h ]

lasting-IsOwn :
    (c : Option ℕ) (a : Option String) (n : ℕ) (rs : List Run) (r : Run)
    → All (IsOwn c a) rs
    → lasting n rs ≡ some r
    → a ≡ some r.owner
lasting-IsOwn c a n [] r h e = cc
lasting-IsOwn c a n (x ∷ rs) r (h, hs) e = elim (Bool-cases (eqb x.number n && not x.ended)) [
  | inl here ↦ owned h here (some-injective x r (rw here at e))
  | inr later ↦ lasting-IsOwn c a n rs r hs (rw later at e)
]
  where
    owned : IsOwn c a x → (eqb x.number n && not x.ended) ≡ true → x ≡ r → a ≡ some r.owner
    owned (inl ended) here same = absurd (ground (arith, ended, here))
    owned (inr (e, o)) here same = o ∙ ap (λ y. some y.owner) same

effect-IsOwn :
    (o : Option String) (s : BalanceState)
    → ((c : Option ℕ) (a : Option String) → All (IsOwn c a) s.runs)
    → let t = run_effect o s in All (IsOwn t.current t.account) t.runs
unfolding run_effect
effect-IsOwn none s h = h none none
effect-IsOwn (some a) s h = elim (Bool-cases (a == "")) [
  | inl empty ↦ rw empty (h none (some a))
  | inr other ↦ rw other (inr (refl, refl), h (some s.next) (some a))
]

show_balance-IsOwn :
    (o : Option Run) (info : BalanceInfo) (s : BalanceState)
    → All (IsOwn s.current s.account) s.runs
    → let t = show_balance o info s in All (IsOwn t.current t.account) t.runs
unfolding show_balance
show_balance-IsOwn none info s h = h
show_balance-IsOwn (some r) info s h = h

shown :
    (o : Option Run) (info : BalanceInfo) (s : BalanceState)
    → ((r : Run) → o ≡ some r → s.account ≡ some r.owner)
    → let t = show_balance o info s in
      (t ≡ s)
      ⊎ ((owner : String) × (t.account ≡ some owner) × (t.stored ≡ some (owner, info.formatted)))
unfolding show_balance
shown none info s h = inl refl
shown (some r) info s h = inr (r.owner, h r refl, refl)

abbrev new_run : String → BalanceState → BalanceState
new_run a s = record s {
  account = some a;
  current = some s.next;
  next = suc s.next;
  runs = record { number = s.next; owner = a; unsubscribe = false; ended = false } ∷ s.runs;
  loading = true;
}

run_effect-new_run : (a : String) (s : BalanceState) → a ≢ "" → run_effect (some a) s ≡ new_run a s
unfolding run_effect
run_effect-new_run a s h = elim (Bool-cases (a == "")) [
  | inl empty ↦ let never = h ((eq_iff a "").0 empty) in elim never [ ]
  | inr other ↦ rw other refl
]

late_run :
    (a b : String) (s : BalanceState) (rs : List Run)
    → lasting s.next (
        record { number = suc s.next; owner = b; unsubscribe = false; ended = false }
        ∷ (cleaned
              (some s.next)
              (record { number = s.next; owner = a; unsubscribe = false; ended = false })
            ∷ rs))
      ≡ some (record { number = s.next; owner = a; unsubscribe = false; ended = false })
late_run a b s rs = ground arith

-- Each subscription is answered before another account is selected.
abbrev pub IsTimely : Event → BalanceState → Type 0
IsTimely (switched o) s = AllAnswered s.runs
IsTimely e s = Unit

module _ (format_balance : String → String) where
  pub data Reach : BalanceState → Type 0 where
    start : Reach initial
    go : (e : Event) (s : BalanceState) → IsTimely e s → Reach s → Reach (step format_balance e s)

  step-IsOwn :
      (e : Event) (s : BalanceState)
      → IsTimely e s
      → All (IsOwn s.current s.account) s.runs
      → let t = step format_balance e s in All (IsOwn t.current t.account) t.runs
  unfolding step
  step-IsOwn (switched o) s a h = effect-IsOwn o _ (cleaned-IsOwn s.current s.account s.runs h a)
  step-IsOwn (subscribed n) s a h = answered-IsOwn s.current s.account n s.runs h
  step-IsOwn (not_subscribed n) s a h = h
  step-IsOwn (updated n f r z) s a h =
      show_balance-IsOwn (lasting n s.runs) (balance_of format_balance f r z) s h

  Reach-IsOwn : (s : BalanceState) → Reach s → All (IsOwn s.current s.account) s.runs
  Reach-IsOwn s start = tt
  Reach-IsOwn s (go e s₀ h r) = step-IsOwn e s₀ h (Reach-IsOwn s₀ r)

  -- As long as each subscription is answered before another account is selected, an update either
  -- changes nothing, or shows the sum of the free and the reserved balance, for the selected account.
  pub Reach-updated :
      (s : BalanceState) (n free reserved frozen : ℕ)
      → Reach s
      → let t = step format_balance (updated n free reserved frozen) s in
        (t ≡ s)
        ⊎ ((owner : String) × (t.account ≡ some owner)
            × (t.stored ≡ some (owner, format_balance (decimal (free + reserved)))))
  unfolding step balance_of
  Reach-updated s n free reserved frozen r =
      shown (lasting n s.runs) (balance_of format_balance free reserved frozen) s
        (λ x e. lasting-IsOwn s.current s.account n s.runs x (Reach-IsOwn s r) e)

  -- If another account is selected before the subscription was answered, the updates of the former
  -- account are stored as the balance of the new one.
  pub step_late :
      (s : BalanceState) (a b : String) (free reserved frozen : ℕ)
      → a ≢ ""
      → b ≢ ""
      → let late =
          step format_balance (switched (some b)) (step format_balance (switched (some a)) s) in
        let t = step format_balance (updated s.next free reserved frozen) late in
        (t.account ≡ some b) × (t.stored ≡ some (a, format_balance (decimal (free + reserved))))
  unfolding step show_balance balance_of
  step_late s a b free reserved frozen f g =
      let s₁ = record s { runs = map (cleaned s.current) s.runs } in
      let t₁ = new_run a s₁ in
      rw
        (
          run_effect-new_run a s₁ f,
          run_effect-new_run b (record t₁ { runs = map (cleaned t₁.current) t₁.runs }) g,
          late_run a b s (map (cleaned (some s.next)) (map (cleaned s.current) s.runs)),
        )
        (refl, refl)
