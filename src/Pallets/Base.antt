-- ===== src/Pallets/Base.antt =====
-- What the pallets under pallets/ share: their errors, and what they take from the framework, that is
-- origins, results, maps, bounded vectors and saturating numbers. Accounts and hashes are the texts
-- that the client library names them by, other byte sequences are lists of numbers.
use academic_verification.Prelude.{
  ℕ, ◌+◌, ◌-◌, ◌*◌, min, String, Bool, true, false, not, Option, none, some, List, [], ◌∷◌, ◌++◌,
  ◌==◌, ◌≡◌, ◌≢◌, refl, sym, ap, subst, ◌∙◌, inl, inr, Bool-cases, some-injective, is_some, ◌≤◌,
  ◌<◌, if◌then◌else◌, length, length-append, ltb, eq_iff, eq_refl, arith,
}

abbrev pub AccountId : Type 0
AccountId = String

-- `[u8; 32]`
abbrev pub H256 : Type 0
H256 = String

-- `Vec<u8>`
abbrev pub Bytes : Type 0
Bytes = List ℕ

-- `OriginFor`
pub data Origin : Type 0 where
  root unsigned : Origin
  signed : AccountId → Origin

-- `Error` of pallets/did
pub data DidError : Type 0 where
  did_already_exists did_not_found not_authorized too_many_public_keys : DidError
  public_key_already_exists public_key_not_found institution_already_registered : DidError
  institution_not_found did_inactive invalid_institution_name : DidError

-- `Error` of pallets/credential
pub data CredentialError : Type 0 where
  credential_not_found credential_already_exists not_authorized issuer_not_verified :
      CredentialError
  issuer_has_no_did holder_has_no_did credential_already_revoked : CredentialError
  credential_expired too_many_credentials metadata_too_large : CredentialError
  invalid_credential_hash credential_not_active did_not_active : CredentialError

-- `Error` of pallets/reputation
pub data ReputationError : Type 0 where
  no_did did_not_active already_endorsed cannot_endorse_self too_many_endorsements : ReputationError
  endorsement_not_found invalid_weight comment_too_large not_verified_institution : ReputationError

-- `DispatchError`
pub data Error : Type 0 where
  bad_origin : Error
  did : DidError → Error
  credential : CredentialError → Error
  reputation : ReputationError → Error

-- `Result` with that error.
pub data Result {ℓ} (T : Type ℓ) : Type ℓ where
  err : (error : Error) → Result T
  ok : (value : T) → Result T

-- `ensure!`
abbrev pub ensure : (condition : Bool) → Error → Result (Unit {0})
ensure false error = err error
ensure true error = ok tt

-- The operator `?`: what follows is done with the value, and an error is returned.
infixl 5 ◌>>=◌ ◌>>◌
abbrev pub ◌>>=◌ {ℓ κ} : {S : Type ℓ} {T : Type κ} → Result S → (S → Result T) → Result T
(err error) >>= next = err error
(ok value) >>= next = next value

abbrev pub ◌>>◌ {ℓ κ} : {S : Type ℓ} {T : Type κ} → Result S → Result T → Result T
(err error) >> next = err error
(ok value) >> next = next

-- `ok_or`
abbrev pub ok_or {ℓ} : {A : Type ℓ} → Option A → Error → Result A
ok_or none e = err e
ok_or (some a) e = ok a

abbrev pub ensure_signed : Origin → Result AccountId
ensure_signed root = err bad_origin
ensure_signed unsigned = err bad_origin
ensure_signed (signed who) = ok who

abbrev pub ensure_root : Origin → Result (Unit {0})
ensure_root root = ok tt
ensure_root unsigned = err bad_origin
ensure_root (signed who) = err bad_origin

-- A storage map is a function of its keys: `insert`.
unfoldable pub put {ℓ} : {V : Type ℓ} → String → V → (String → V) → String → V
put k v m j = if k == j then v else m j

-- `try_push` of a bounded vector: `none` if it is full.
unfoldable pub try_push {ℓ} : {A : Type ℓ} → ℕ → List A → A → Option (List A)
try_push bound xs x = if ltb (length xs) bound then some (xs ++ x ∷ []) else none

-- `saturating_add`, `saturating_sub` and `saturating_mul` of the numbers up to `top`
abbrev pub saturating_add : ℕ → ℕ → ℕ → ℕ
saturating_add top a b = min (a + b) top

abbrev pub saturating_mul : ℕ → ℕ → ℕ → ℕ
saturating_mul top a b = min (a * b) top

abbrev pub saturating_sub : ℕ → ℕ → ℕ
saturating_sub a b = a - b

abbrev pub u32_max : ℕ
u32_max = 4294967295

abbrev pub u64_max : ℕ
u64_max = 18446744073709551615

-- The constants of the three `Config` traits that the calls read, the hash function of the
-- framework, and the encoding of an account.
pub record Config : Type 0 where
  pub max_public_keys : ℕ
  pub max_credentials_per_holder : ℕ
  pub max_endorsements : ℕ
  pub max_comment_size : ℕ
  pub blake2_256 : Bytes → H256
  pub encode : AccountId → Bytes

pub put_lem {ℓ} :
    {V : Type ℓ} (k j : String) (v : V) (m : String → V) → put k v m j ≡ (if k == j then v else m j)
unfolding put
put_lem k j v m = refl

pub put_self {ℓ} : {V : Type ℓ} (k : String) (v : V) (m : String → V) → put k v m k ≡ v
unfolding put
put_self k v m = rw (eq_refl k) refl

pub put_other {ℓ} : {V : Type ℓ} (k j : String) (v : V) (m : String → V) → k ≢ j → put k v m j ≡ m j
unfolding put
put_other k j v m ne = ground (arith, eq_iff k j)

pub ok-injective {ℓ} : {A : Type ℓ} (a b : A) → ok a ≡ ok b → a ≡ b
ok-injective a b h = cc

-- Inversions of the parts of a call that succeeded.
pub ensure-eq-ok {ℓ} :
    {B : Type ℓ} (t : Bool) (e : Error) (k : Result B) {b : B}
    → (ensure t e >> k) ≡ ok b
    → (t ≡ true) × (k ≡ ok b)
ensure-eq-ok true e k h = (refl, h)
ensure-eq-ok false e k h = cc

pub ok_or-eq-ok {ℓ κ} :
    {A : Type ℓ} {B : Type κ} (o : Option A) (e : Error) (f : A → Result B) {b : B}
    → (ok_or o e >>= f) ≡ ok b
    → (a : A) × (o ≡ some a) × (f a ≡ ok b)
ok_or-eq-ok none e f h = cc
ok_or-eq-ok (some a) e f h = (a, refl, h)

pub signed-eq-ok {ℓ} :
    {B : Type ℓ} (o : Origin) (f : AccountId → Result B) {b : B}
    → (ensure_signed o >>= f) ≡ ok b
    → (who : AccountId) × (o ≡ signed who) × (f who ≡ ok b)
signed-eq-ok root f h = cc
signed-eq-ok unsigned f h = cc
signed-eq-ok (signed who) f h = (who, refl, h)

-- Every entry of a storage map satisfies `P`.
abbrev pub Entries {ℓ} : {V : Type 0} → (String → V → Type ℓ) → (String → Option V) → Type ℓ
Entries {V} P m = (k : String) (v : V) → m k ≡ some v → P k v

pub Entries-put {ℓ} :
    {V : Type 0} (P : String → V → Type ℓ) (m : String → Option V) (k : String) (v : V)
    → P k v
    → Entries P m
    → Entries P (put k (some v) m)
Entries-put P m k v p all j w e = elim (Bool-cases (k == j)) [
  | inl same ↦
      let here : some v ≡ some w =
        sym (ap (λ b. if b then some v else m j) same) ∙ sym (put_lem k j (some v) m) ∙ e in
      subst (λ i. P i w) ((eq_iff k j).0 same) (subst (P k) (some-injective v w here) p)
  | inr apart ↦
      all j w (sym (ap (λ b. if b then some v else m j) apart) ∙ sym (put_lem k j (some v) m) ∙ e)
]

-- A key that is used stays used.
pub put-is_some :
    {V : Type 0} (k j : String) (v : V) (m : String → Option V)
    → is_some (m j) ≡ true
    → is_some (put k (some v) m j) ≡ true
unfolding put
put-is_some k j v m h = ground arith

ltb-lt : (a b : ℕ) → ltb a b ≡ true → a < b
ltb-lt a b h = ground arith

pub try_push-eq-some :
    {A : Type 0} (bound : ℕ) (xs ys : List A) (x : A)
    → try_push bound xs x ≡ some ys
    → (ys ≡ xs ++ x ∷ []) × (length ys ≤ bound)
unfolding try_push
try_push-eq-some bound xs ys x h = elim (Bool-cases (ltb (length xs) bound)) [
  | inl room ↦
      let pushed : xs ++ x ∷ [] ≡ ys = some-injective _ _ (rw room at h) in
      (
        sym pushed,
        subst (λ l. length l ≤ bound) pushed
            (rw (length-append xs (x ∷ [])) (omega (arith, ltb-lt (length xs) bound room))),
      )
  | inr full ↦ let never = rw full at h in cc
]

pub not-eq-true : (b : Bool) → not b ≡ true → b ≡ false
not-eq-true b h = ground arith

pub root-eq-ok {ℓ} :
    {B : Type ℓ} (o : Origin) (k : Result B) {b : B}
    → (ensure_root o >> k) ≡ ok b
    → (o ≡ root) × (k ≡ ok b)
root-eq-ok root k h = (refl, h)
root-eq-ok unsigned k h = cc
root-eq-ok (signed who) k h = cc
