-- ===== src/Pallets/Tests.antt =====
-- A chain on which an institution issues a credential, and the hash function of the tests.
use Prim.Native.Char.{code}
use academic_verification.Prelude.{
  ℕ, zero, suc, String, true, none, some, [], ◌∷◌, ◌≡◌, ◌≢◌, refl, sym, ap, arith,
}
use academic_verification.Pallets.Base.{Bytes, H256, root, signed, Config}
use academic_verification.Pallets.Did.{ed25519}
use academic_verification.Pallets.Did.Calls as DidCalls
use academic_verification.Pallets.Credential.{Issuance, degree}
use academic_verification.Pallets.Credential.Calls as CredentialCalls
use academic_verification.Pallets.Credential.Indexed.{HasNoCollision}
use academic_verification.Pallets.Runtime.{
  Runtime, did, credential, apply, genesis, Reach, here, call,
}
use academic_verification.Pallets.Credential.{CredentialStorage}
use academic_verification.Pallets.Serving.{Serves, raw_if_any}
use academic_verification.Chain.{Api}
use academic_verification.Integration.Format.{check_pallet_availability}
use academic_verification.Queries.Real.Tests.{api}
use academic_verification.Prelude.{ok}

-- A number in unary, before a text.
unfoldable pub unary : ℕ → String → String
unary zero s = String.◌∷◌ "b" s
unary (suc n) s = String.◌∷◌ "a" (unary n s)

unfoldable pub written : Bytes → H256
unfolding unary
written [] = String.[]
written (n ∷ ns) = unary n (written ns)

tail_of : String → String
tail_of String.[] = String.[]
tail_of (String.◌∷◌ c s) = s

head_of : String → ℕ
head_of String.[] = 0
head_of (String.◌∷◌ c s) = code c

unary-injective : (m n : ℕ) (s t : String) → unary m s ≡ unary n t → (m ≡ n) × (s ≡ t)
unfolding unary tail_of head_of
unary-injective zero zero s t e = (refl, ap tail_of e)
unary-injective zero (suc n) s t e = absurd (omega (arith, ap head_of e))
unary-injective (suc m) zero s t e = absurd (omega (arith, ap head_of e))
unary-injective (suc m) (suc n) s t e =
    let (p, q) = unary-injective m n s t (ap tail_of e) in (ap suc p, q)

some_byte : (n : ℕ) (ns : Bytes) → String.[] ≢ written (n ∷ ns)
unfolding written unary
some_byte zero ns e = cc
some_byte (suc n) ns e = cc

written-injective : (x y : Bytes) → written x ≡ written y → x ≡ y
unfolding written
written-injective [] [] e = refl
written-injective [] (n ∷ ns) e = absurd (some_byte n ns e)
written-injective (m ∷ ms) [] e = absurd (some_byte m ms (sym e))
written-injective (m ∷ ms) (n ∷ ns) e =
    let (p, q) = unary-injective m n (written ms) (written ns) e in
    let r = written-injective ms ns q in cc (p, r)

abbrev pub cfg : Config
cfg = record {
  max_public_keys = 2;
  max_credentials_per_holder = 1;
  max_endorsements = 2;
  max_comment_size = 4;
  blake2_256 = written;
  encode = λ a. [];
}

pub cfg-HasNoCollision : HasNoCollision cfg
cfg-HasNoCollision = written-injective

abbrev pub with_student : Runtime
with_student = apply cfg (signed "5Stu") (did (DidCalls.create_did (1 ∷ []) ed25519)) genesis

abbrev pub with_both : Runtime
with_both = apply cfg (signed "5Uni") (did (DidCalls.create_did (2 ∷ []) ed25519)) with_student

abbrev pub with_institution : Runtime
with_institution =
    apply cfg (signed "5Uni") (did (DidCalls.register_institution (85 ∷ []))) with_both

abbrev pub ready : Runtime
ready = apply cfg root (did (DidCalls.verify_institution "5Uni")) with_institution

pub ready-Reach : Reach cfg genesis ready
ready-Reach =
    call
      (call
        (call (call here (signed "5Stu") (did (DidCalls.create_did (1 ∷ []) ed25519)))
          (signed "5Uni") (did (DidCalls.create_did (2 ∷ []) ed25519)))
        (signed "5Uni") (did (DidCalls.register_institution (85 ∷ []))))
      root (did (DidCalls.verify_institution "5Uni"))

abbrev pub diploma : Issuance
diploma = record {
  holder = "5Stu";
  credential_hash = "0xabcdef0123";
  credential_type = degree;
  metadata = [];
  expires_at = none;
}

abbrev pub issued : Runtime
issued = apply cfg (signed "5Uni") (credential (CredentialCalls.issue_credential diploma)) ready

pub issued-Reach : Reach cfg genesis issued
issued-Reach =
    call ready-Reach (signed "5Uni") (credential (CredentialCalls.issue_credential diploma))

issued_hash : issued.credential.credential_by_hash "0xabcdef0123" ≡ some "bbbbbbbb"
unfolding apply written
issued_hash = refl

-- The node that serves a storage.
abbrev pub to_hex : Bytes → String
to_hex b = "0x"

abbrev pub serving : CredentialStorage → Api
serving s = record api {
  has_pallet = λ p. ok true;
  credentials = λ id. ok (raw_if_any to_hex (s.credentials id));
  credential_by_hash = λ h. ok (s.credential_by_hash h);
}

pub serving-Serves : (s : CredentialStorage) → Serves to_hex s (serving s)
unfolding check_pallet_availability
serving-Serves s = record { available = refl; credentials = λ id. refl; hashes = λ h. refl }
