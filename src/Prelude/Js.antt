-- ===== src/Prelude/Js.antt =====
-- JavaScript's truthiness and `||` on the types that the program uses: an absent value, 0 and the
-- empty string are falsy.
use Prim.Native.Nat.{ℕ}
use Prim.Native.String.{String}
use mathlib.Core.Bool.{Bool, true, false, not}
use mathlib.Core.Option.{Option, none, some, some-injective}
use mathlib.Core.List.{List, [], ◌∷◌}
use text.Mathlib.Text.{◌==◌, find?}
use academic_verification.Prelude.Tests.{eqb, if◌then◌else◌, Bool-cases}
use academic_verification.Prelude.Lists.{All}
use text.Mathlib.TextEquality.{eq_iff}
use mathlib.Core.Path.{◌≡◌}
use mathlib.Core.Logic.{inl, inr}
use native.Mathlib.Omega.{arith}

abbrev pub is_some {ℓ} : {A : Type ℓ} → Option A → Bool
is_some none = false
is_some (some a) = true

-- `a ?? d`
abbrev pub get_or {ℓ} : {A : Type ℓ} → Option A → A → A
get_or none d = d
get_or (some a) d = a

abbrev pub truthy_num : Option ℕ → Bool
truthy_num none = false
truthy_num (some n) = not (eqb n 0)

abbrev pub truthy_str : Option String → Bool
truthy_str none = false
truthy_str (some s) = not (s == "")

-- `n || d`
abbrev pub num_or : Option ℕ → ℕ → ℕ
num_or none d = d
num_or (some n) d = if eqb n 0 then d else n

-- `s || d`
abbrev pub str_or : Option String → String → String
str_or none d = d
str_or (some s) d = if s == "" then d else s

-- A record of strings as the list of its own keys and values: `r[k]`.
unfoldable pub lookup {ℓ} : {V : Type ℓ} → String → List (String × V) → Option V
lookup k [] = none
lookup k ((j, v) ∷ m) = let rest = lookup k m in if j == k then some v else rest

-- What holds of every entry of a table holds of the entry that is found.
module _ {ℓ κ} {V : Type ℓ} (P : String → V → Type κ) where
  pub lookup-All :
      (k : String) (m : List (String × V)) (v : V)
      → All (λ e. P e.0 e.1) m
      → lookup k m ≡ some v
      → P k v
  unfolding lookup
  lookup-All k ((j, w) ∷ m) v (p, h) e = elim (Bool-cases (j == k)) [
    | inl same ↦
        let here : some w ≡ some v = rw same at e in
        let there : j ≡ k = (eq_iff j k).0 same in rw (← there, ← some-injective w v here) p
    | inr other ↦ lookup-All k m v h (rw other at e)
  ]
  lookup-All k [] v h e = cc

-- `s.includes(t)`
unfoldable pub includes : String → String → Bool
includes s t = is_some (find? s t)

-- `r[k] = v`
unfoldable pub set_key {ℓ} : {V : Type ℓ} → String → V → List (String × V) → List (String × V)
set_key k v [] = (k, v) ∷ []
set_key k v ((j, w) ∷ m) = let rest = set_key k v m in if j == k then (j, v) ∷ m else (j, w) ∷ rest

pub lookup-set_key {ℓ} :
    {V : Type ℓ} (k j : String) (v : V) (m : List (String × V))
    → lookup j (set_key k v m) ≡ (if k == j then some v else lookup j m)
unfolding lookup set_key
lookup-set_key k j v [] = ground arith
lookup-set_key k j v ((i, w) ∷ m) =
    ground (arith, eq_iff k j, eq_iff i k, eq_iff i j, lookup-set_key k j v m)
