-- ===== src/Prelude/Lists.antt =====
-- Array methods over the native numbers: `length`, `filter`, `find`, a filtered map, and predicates
-- over every item.
use Prim.Native.Nat.{ℕ, suc, ◌+◌, ◌≤◌}
use mathlib.Core.Path.{◌≡◌, refl, ap}
use mathlib.Core.Bool.{Bool, true}
use mathlib.Core.Logic.{◌⊎◌, inl, inr}
use mathlib.Core.Option.{Option, none, some}
use mathlib.Core.List.{List, [], ◌∷◌, ◌++◌, map}
use native.Mathlib.Omega.{arith}
use academic_verification.Prelude.Tests.{if◌then◌else◌, Bool-cases}

module _ {ℓ} {A : Type ℓ} where
  abbrev pub length : List A → ℕ
  length [] = 0
  length (x ∷ xs) = suc (length xs)

  -- `xs.filter(p)`
  abbrev pub filter : (A → Bool) → List A → List A
  filter p [] = []
  filter p (x ∷ xs) = let rest = filter p xs in if p x then x ∷ rest else rest

  -- `xs.find(p)`
  abbrev pub find : (A → Bool) → List A → Option A
  find p [] = none
  find p (x ∷ xs) = let rest = find p xs in if p x then some x else rest

  -- `xs.filter(p).length`
  abbrev pub count : (A → Bool) → List A → ℕ
  count p xs = length (filter p xs)

  -- `xs.filter(x => x !== null)` over values that may be null
  abbrev pub somes : List (Option A) → List A
  somes [] = []
  somes (none ∷ xs) = somes xs
  somes (some x ∷ xs) = x ∷ somes xs

  pub length-append : (xs ys : List A) → length (xs ++ ys) ≡ length xs + length ys
  length-append [] ys = omega arith
  length-append (x ∷ xs) ys = omega (arith, length-append xs ys)

  pub length-filter : (p : A → Bool) (xs : List A) → length (filter p xs) ≤ length xs
  length-filter p [] = omega arith
  length-filter p (x ∷ xs) = ground (arith, length-filter p xs)

  pub count-append : (p : A → Bool) (xs ys : List A) → count p (xs ++ ys) ≡ count p xs + count p ys
  count-append p [] ys = omega arith
  count-append p (x ∷ xs) ys = ground (arith, count-append p xs ys)

module _ {ℓ κ} {A : Type ℓ} (P : A → Type κ) where
  abbrev pub All : List A → Type κ
  All [] = Unit
  All (x ∷ xs) = P x × All xs

  pub All-append : (xs ys : List A) → All xs → All ys → All (xs ++ ys)
  All-append [] ys h k = k
  All-append (x ∷ xs) ys (p, h) k = (p, All-append xs ys h k)

module _ {ℓ κ} {A : Type ℓ} (P : A → Type κ) where
  pub All-filter : (p : A → Bool) (xs : List A) → All P xs → All P (filter p xs)
  All-filter p [] h = tt
  All-filter p (x ∷ xs) (px, h) = ground (arith, All-filter p xs h)

-- `x` is one of the items.
abbrev pub Among : {A : Type 0} → A → List A → Type 0
Among a [] = ⊥
Among a (x ∷ xs) = (a ≡ x) ⊎ Among a xs

module _ {κ} {A : Type 0} (P : A → Type κ) where
  pub All-Among : (xs : List A) (a : A) → All P xs → Among a xs → P a
  All-Among (x ∷ xs) a (p, h) (inl e) = rw e p
  All-Among (x ∷ xs) a (p, h) (inr m) = All-Among xs a h m
  All-Among [] a h m = elim m [ ]

module _ {A : Type 0} where
  pub Among-append_left : (xs ys : List A) (a : A) → Among a xs → Among a (xs ++ ys)
  Among-append_left (x ∷ xs) ys a (inl e) = inl e
  Among-append_left (x ∷ xs) ys a (inr m) = inr (Among-append_left xs ys a m)
  Among-append_left [] ys a m = elim m [ ]

  pub Among-append_right : (xs ys : List A) (a : A) → Among a ys → Among a (xs ++ ys)
  Among-append_right [] ys a m = m
  Among-append_right (x ∷ xs) ys a m = inr (Among-append_right xs ys a m)

  pub Among-append : (xs ys : List A) (a : A) → Among a (xs ++ ys) → Among a xs ⊎ Among a ys
  Among-append (x ∷ xs) ys a (inl e) = inl (inl e)
  Among-append (x ∷ xs) ys a (inr m) = elim (Among-append xs ys a m) [
    | inl h ↦ inl (inr h)
    | inr h ↦ inr h
  ]
  Among-append [] ys a m = inr m

  Among-filter_kept :
      (p : A → Bool) (x : A) (xs : List A) (a : A)
      → p x ≡ true
      → (Among a (filter p xs) → Among a xs × (p a ≡ true))
      → Among a (x ∷ filter p xs)
      → Among a (x ∷ xs) × (p a ≡ true)
  Among-filter_kept p x xs a keep ih (inl e) = (inl e, rw e keep)
  Among-filter_kept p x xs a keep ih (inr m) = let (m', h) = ih m in (inr m', h)

  pub Among-filter :
      (p : A → Bool) (xs : List A) (a : A) → Among a (filter p xs) → Among a xs × (p a ≡ true)
  Among-filter p (x ∷ xs) a m = elim (Bool-cases (p x)) [
    | inl keep ↦ Among-filter_kept p x xs a keep (Among-filter p xs a) (rw keep at m)
    | inr drop ↦ let (m', h) = Among-filter p xs a (rw drop at m) in (inr m', h)
  ]
  Among-filter p [] a m = elim m [ ]

module _ {ℓ} {A : Type ℓ} where
  pub filter-append :
      (p : A → Bool) (xs ys : List A) → filter p (xs ++ ys) ≡ filter p xs ++ filter p ys
  filter-append p [] ys = refl
  filter-append p (x ∷ xs) ys = ground (arith, filter-append p xs ys)

  pub filter_id : (p : A → Bool) (xs : List A) → All (λ x. p x ≡ true) xs → filter p xs ≡ xs
  filter_id p [] h = refl
  filter_id p (x ∷ xs) (px, h) = rw (px, filter_id p xs h)

  pub find-Among : (p : A → Bool) (xs : List A) (a : A) → find p xs ≡ some a → p a ≡ true
  find-Among p [] a e = cc
  find-Among p (x ∷ xs) a e = ground (arith, find-Among p xs a)

-- What is left of a mapped list when the missing values are dropped.
module _ {A B : Type 0} (f : A → Option B) where
  somes_step :
      (o : Option B) (x : A) (xs : List A) (b : B)
      → f x ≡ o
      → (Among b (somes (map f xs)) → (y : A) × Among y xs × (f y ≡ some b))
      → Among b (somes (o ∷ map f xs))
      → (y : A) × Among y (x ∷ xs) × (f y ≡ some b)
  somes_step none x xs b e ih m = let (y, m', h) = ih m in (y, inr m', h)
  somes_step (some b') x xs b e ih (inl h) = (x, inl refl, rw h e)
  somes_step (some b') x xs b e ih (inr m) = let (y, m', h) = ih m in (y, inr m', h)

  pub somes-Among :
      (xs : List A) (b : B) → Among b (somes (map f xs)) → (x : A) × Among x xs × (f x ≡ some b)
  somes-Among [] b m = elim m [ ]
  somes-Among (x ∷ xs) b m = somes_step (f x) x xs b refl (somes-Among xs b) m

  somes_later :
      (o : Option B) (bs : List (Option B)) (b : B) → Among b (somes bs) → Among b (somes (o ∷ bs))
  somes_later none bs b m = m
  somes_later (some b') bs b m = inr m

  pub Among-somes :
      (xs : List A) (x : A) (b : B) → Among x xs → f x ≡ some b → Among b (somes (map f xs))
  Among-somes [] x b m e = elim m [ ]
  Among-somes (y ∷ xs) x b (inl h) e = rw (← h, e) (inl refl)
  Among-somes (y ∷ xs) x b (inr m) e = somes_later (f y) (map f xs) b (Among-somes xs x b m e)

somes-cons :
    {A : Type 0} (o : Option A) (xs ys : List (Option A))
    → somes xs ≡ somes ys
    → somes (o ∷ xs) ≡ somes (o ∷ ys)
somes-cons none xs ys e = e
somes-cons (some a) xs ys e = ap (λ l. a ∷ l) e

-- Going on with each value as it is found, or with all the found values afterwards, is the same.
module _ {A B C : Type 0} (g : A → Option B) (k : Option B → Option C)
    (strict : k none ≡ none) where
  somes_compose_step :
      (o : Option B) (xs : List A)
      → somes (map (λ x. k (g x)) xs) ≡ somes (map (λ b. k (some b)) (somes (map g xs)))
      → somes (k o ∷ map (λ x. k (g x)) xs) ≡ somes (map (λ b. k (some b)) (somes (o ∷ map g xs)))
  somes_compose_step none xs ih = rw strict ih
  somes_compose_step (some b) xs ih = somes-cons (k (some b)) _ _ ih

  pub somes_compose :
      (xs : List A)
      → somes (map (λ x. k (g x)) xs) ≡ somes (map (λ b. k (some b)) (somes (map g xs)))
  somes_compose [] = refl
  somes_compose (x ∷ xs) = somes_compose_step (g x) xs (somes_compose xs)

module _ {A B : Type 0} (f : A → B) where
  pub length-map : (xs : List A) → length (map f xs) ≡ length xs
  length-map [] = refl
  length-map (x ∷ xs) = ap suc (length-map xs)

  pub Among-map : (xs : List A) (b : B) → Among b (map f xs) → (a : A) × Among a xs × (b ≡ f a)
  Among-map [] b m = elim m [ ]
  Among-map (x ∷ xs) b (inl e) = (x, inl refl, e)
  Among-map (x ∷ xs) b (inr m) = let (a, m', e) = Among-map xs b m in (a, inr m', e)

  pub map-Among : (xs : List A) (a : A) → Among a xs → Among (f a) (map f xs)
  map-Among [] a m = elim m [ ]
  map-Among (x ∷ xs) a (inl e) = inl (ap f e)
  map-Among (x ∷ xs) a (inr m) = inr (map-Among xs a m)

pub filter-Among :
    {A : Type 0} (p : A → Bool) (xs : List A) (a : A)
    → Among a xs
    → p a ≡ true
    → Among a (filter p xs)
filter-Among p [] a m e = elim m [ ]
filter-Among p (x ∷ xs) a (inl same) e = rw (← same, e) (inl refl)
filter-Among p (x ∷ xs) a (inr m) e =
    let later = filter-Among p xs a m e in
    elim (Bool-cases (p x)) [ inl keep ↦ rw keep (inr later) | inr drop ↦ rw drop later ]
