-- ===== src/Prelude/Async.antt =====
-- What an awaited call gives back: a value, or a rejection with the error's message. A `try` block
-- is a `do` block, and its `catch` is a function by clauses on the rejection.
use mathlib.Core.Path.{◌≡◌, refl, ap}
use mathlib.Core.Option.{Option, none, some}
use academic_verification.Prelude.Lists.{Among}
use mathlib.Core.Logic.{◌⊎◌, inl, inr}
use mathlib.Core.List.{List, [], ◌∷◌}
use Prim.Native.String.{String}

pub data Settled {ℓ} (A : Type ℓ) : Type ℓ where
  ok : A → Settled A
  err : String → Settled A

infixl 5 ◌>>=◌ ◌>>◌
abbrev pub ◌>>=◌ {ℓ κ} : {A : Type ℓ} {B : Type κ} → Settled A → (A → Settled B) → Settled B
ok a >>= f = f a
err e >>= f = err e

abbrev pub ◌>>◌ {ℓ κ} : {A : Type ℓ} {B : Type κ} → Settled A → Settled B → Settled B
m >> k = m >>= λ _. k

-- `try { … } catch { return d; }`
abbrev pub or_else {ℓ} : {A : Type ℓ} → Settled A → A → A
or_else (ok a) d = a
or_else (err e) d = d

-- `Promise.all`: the values in order, or the rejection of the first call that rejects.
abbrev pub all_settled {ℓ} : {A : Type ℓ} → List (Settled A) → Settled (List A)
all_settled [] = ok []
all_settled (m ∷ ms) = m >>= λ a. all_settled ms >>= λ rest. ok (a ∷ rest)

pub Settled-cases {ℓ} :
    {A : Type ℓ} (m : Settled A) → ((a : A) × (m ≡ ok a)) ⊎ ((e : String) × (m ≡ err e))
Settled-cases (ok a) = inl (a, refl)
Settled-cases (err e) = inr (e, refl)

pub ok-injective {ℓ} : {A : Type ℓ} (a b : A) → ok a ≡ ok b → a ≡ b
ok-injective a b e = cc

pub or_else-eq-some {ℓ} :
    {A : Type ℓ} (m : Settled (Option A)) (a : A) → or_else m none ≡ some a → m ≡ ok (some a)
or_else-eq-some (ok o) a e = ap ok e
or_else-eq-some (err m) a e = cc

pub >>=-eq-ok {ℓ κ} :
    {A : Type ℓ} {B : Type κ} (m : Settled A) (f : A → Settled B) (b : B)
    → (m >>= f) ≡ ok b
    → (a : A) × (m ≡ ok a) × (f a ≡ ok b)
>>=-eq-ok (ok a) f b e = (a, refl, e)
>>=-eq-ok (err m) f b e = cc

pub or_else-Among :
    {A : Type 0} (m : Settled (List A)) (a : A)
    → Among a (or_else m [])
    → (l : List A) × (m ≡ ok l) × Among a l
or_else-Among (ok l) a h = (l, refl, h)
or_else-Among (err e) a h = elim h [ ]
