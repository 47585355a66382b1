-- ===== src/Pages/Admin.antt =====
-- academic-verification-frontend/src/pages/AdminVerification.tsx. The page's state is a record, a toast
-- is modelled by its kind and its title. The chain's entries, `hexToString`, the user's answer to
-- `confirm`, and what the wallet and the client library answer are parameters: signing and sending is
-- settled once, and its callback gets results, each finalized or not, with or without a dispatch
-- error. The callback of a verification throws on a dispatch error, outside of the `try` block.
pub mod Laws
mod Tests
use academic_verification.Prelude.{
  ℕ, String, Bool, true, false, not, ◌==◌, Option, none, some, List, [], ◌∷◌, ◌++◌, map, somes,
  filter, Settled, ok, err, ◌>>=◌, get_or, num_or, str_or, if◌then◌else◌,
}
use academic_verification.Hex.{Value, decode_institution_name}
use academic_verification.Chain.{Api, InstitutionData}
use academic_verification.Provider.Wallet.{Toast, success, error}

pub record PendingInstitution : Type 0 where
  pub address : String
  pub name : String
  pub registered_at : ℕ
  pub verified : Bool

pub record AdminState : Type 0 where
  pub institutions : List PendingInstitution
  pub loading : Bool
  pub verifying : Option String
  pub revoking : Option String
  pub toasts : List Toast

-- What the callback of `signAndSend` reads.
pub record Result : Type 0 where
  pub is_finalized : Bool
  pub dispatch_error : Option String

abbrev pub toast : Toast → AdminState → AdminState
toast t s = record s { toasts = s.toasts ++ t ∷ [] }

module _ (hex_to_string : String → Settled String) where
  -- One entry of `institutionsList`, before the missing ones are dropped.
  unfoldable pub pending_of : ℕ → String × Option InstitutionData → Option PendingInstitution
  pending_of now (address, none) = none
  pending_of now (address, some i) = some (record {
    address = address;
    name = decode_institution_name hex_to_string i.name;
    registered_at = num_or i.registered_at now;
    verified = get_or i.verified false;
  })

  unfoldable pub show_institutions :
      ℕ → Settled (List (String × Option InstitutionData)) → AdminState → AdminState
  unfolding pending_of
  show_institutions now (ok entries) s = record s {
    institutions = somes (map (pending_of now) entries);
    loading = false;
  }
  show_institutions now (err m) s = record (toast (error "Failed to fetch institutions") s) {
    loading = false;
  }

  unfoldable pub fetch_institutions : Option Api → AdminState → AdminState
  unfolding show_institutions
  fetch_institutions none s = s
  fetch_institutions (some api) s =
      show_institutions api.now api.institution_entries (record s { loading = true })

  -- The callback of a revocation.
  unfoldable pub revocation_result : Option Api → Result → AdminState → AdminState
  unfolding fetch_institutions
  revocation_result chain r s =
      if r.is_finalized
      then elim r.dispatch_error [
        | some e ↦ record (toast (error "Revocation failed") s) { revoking = none }
        | none ↦
            record (fetch_institutions chain
              (toast (success "Institution revoked successfully") s)) { revoking = none }
      ]
      else s

  -- The results of a transaction, one after the other.
  unfoldable pub revocation_results : Option Api → List Result → AdminState → AdminState
  unfolding revocation_result
  revocation_results chain [] s = s
  revocation_results chain (r ∷ rs) s = revocation_results chain rs (revocation_result chain r s)

  -- `handleRevoke`, with the error that the wallet or `signAndSend` rejects with, or the results.
  unfoldable pub handle_revoke :
      (connected confirmed : Bool)
      → Option Api
      → Option String
      → List Result
      → String
      → AdminState
      → AdminState
  unfolding revocation_results
  handle_revoke false confirmed chain rejection rs address s =
      toast (error "Please connect your wallet") s
  handle_revoke true false chain rejection rs address s = s
  handle_revoke true true chain (some m) rs address s =
      record (toast (error "Revocation failed") s) { revoking = none }
  handle_revoke true true chain none rs address s =
      revocation_results chain rs (record s { revoking = some address })

unfoldable pub mark_verified : String → PendingInstitution → PendingInstitution
mark_verified did i = if i.address == did then record i { verified = true } else i

-- The callback of a verification; where it throws, nothing has changed.
unfoldable pub verification_result : String → Result → AdminState → AdminState
unfolding mark_verified
verification_result did r s =
    if r.is_finalized
    then elim r.dispatch_error [
      | some e ↦ s
      | none ↦
          toast (success "Institution verified successfully!")
            (record s { institutions = map (mark_verified did) s.institutions })
    ]
    else s

unfoldable pub verification_results : String → List Result → AdminState → AdminState
unfolding verification_result
verification_results did [] s = s
verification_results did (r ∷ rs) s = verification_results did rs (verification_result did r s)

-- `handleVerify`, with such an error or the results; its `finally` comes as soon as the transaction is sent.
unfoldable pub handle_verify :
    (connected : Bool) → Option String → List Result → String → AdminState → AdminState
unfolding verification_results
handle_verify false rejection rs did s = toast (error "Wallet not connected") s
handle_verify true (some m) rs did s =
    record (toast (error (str_or (some m) "Failed to verify institution")) s) { verifying = none }
handle_verify true none rs did s = verification_results did rs (record s { verifying = none })

unfoldable pub pending_institutions : AdminState → List PendingInstitution
pending_institutions s = filter (λ i. not i.verified) s.institutions

unfoldable pub verified_institutions : AdminState → List PendingInstitution
verified_institutions s = filter (λ i. i.verified) s.institutions
