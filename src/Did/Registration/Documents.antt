-- ===== src/Did/Registration/Documents.antt =====
-- Two lists that are kept in step: the documents of the wizard and their hashes.
use academic_verification.Prelude.{
  ℕ, suc, zero, Bool, true, List, [], ◌∷◌, ◌++◌, map, length, length-append, length-map, filter,
  ◌≡◌, refl, ap, inl, inr, arith, All, Bool-cases,
}
use academic_verification.Did.Registration.{without_index}

pub filter-all {ℓ} : {A : Type ℓ} (p : A → Bool) (xs : List A) → All (λ x. p x ≡ true) (filter p xs)
filter-all p [] = tt
filter-all p (x ∷ xs) = elim (Bool-cases (p x)) [
  | inl e ↦ rw e (e, filter-all p xs)
  | inr e ↦ rw e (filter-all p xs)
]

pub paired-append :
    {A B : Type 0} (f : A → B) (hs : List B) (ds ds' : List A)
    → length hs ≡ length ds
    → length (hs ++ map f ds') ≡ length (ds ++ ds')
paired-append f hs ds ds' e =
    omega (arith, length-append hs (map f ds'), length-append ds ds', length-map f ds', e)

pub without_index-paired {ℓ κ} :
    {A : Type ℓ} {B : Type κ} (n : ℕ) (hs : List B) (ds : List A)
    → length hs ≡ length ds
    → length (without_index n hs) ≡ length (without_index n ds)
unfolding without_index
without_index-paired n [] [] e = refl
without_index-paired n [] (d ∷ ds) e = absurd (omega (arith, e))
without_index-paired n (h ∷ hs) [] e = absurd (omega (arith, e))
without_index-paired zero (h ∷ hs) (d ∷ ds) e = omega (arith, e)
without_index-paired (suc n) (h ∷ hs) (d ∷ ds) e =
    ap suc (without_index-paired n hs ds (omega (arith, e)))

pub without_index-All {ℓ} :
    {A : Type ℓ} (P : A → Type 0) (n : ℕ) (xs : List A) → All P xs → All P (without_index n xs)
unfolding without_index
without_index-All P n [] h = tt
without_index-All P zero (x ∷ xs) (p, h) = h
without_index-All P (suc n) (x ∷ xs) (p, h) = (p, without_index-All P n xs h)
