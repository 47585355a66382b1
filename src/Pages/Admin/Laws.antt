-- ===== src/Pages/Admin/Laws.antt =====
-- What the administration page shows, and what it says of a transaction.
use academic_verification.Prelude.{
  ℕ, ◌+◌, String, Bool, true, false, not, ◌==◌, ◌||◌, Option, none, some, List, [], ◌∷◌, map, somes,
  length, count, Settled, ok, ◌≡◌, refl, ◌∙◌, ap, arith, num_or, get_or, if◌then◌else◌, Bool-cases,
  inl, inr,
}
use academic_verification.Hex.{decode_institution_name}
use academic_verification.Chain.{Api, InstitutionData}
use academic_verification.Integration.Format.{check_pallet_availability}
use academic_verification.Queries.Real
use academic_verification.Queries.Real.{InstitutionEntry, entry_of}
use academic_verification.Pages.Admin.{
  PendingInstitution, AdminState, Result, pending_of, show_institutions, fetch_institutions,
  mark_verified, verification_result, verification_results, pending_institutions,
  verified_institutions,
}

-- A result that confirms the verification.
abbrev pub is_confirmed : Result → Bool
is_confirmed r =
    if r.is_finalized then (elim r.dispatch_error [ none ↦ true | some e ↦ false ]) else false

abbrev pub any_confirmed : List Result → Bool
any_confirmed [] = false
any_confirmed (r ∷ rs) = is_confirmed r || any_confirmed rs

marked_again :
    (did : String) (i : PendingInstitution)
    → mark_verified did (mark_verified did i) ≡ mark_verified did i
unfolding mark_verified
marked_again did i = elim (Bool-cases (i.address == did)) [
  | inl same ↦ rw (same, same) refl
  | inr other ↦ rw (other, other) refl
]

marked_twice :
    (did : String) (known : List PendingInstitution)
    → map (mark_verified did) (map (mark_verified did) known) ≡ map (mark_verified did) known
marked_twice did [] = refl
marked_twice did (i ∷ rest) = rw (marked_again did i, marked_twice did rest) refl

confirmed_result :
    (did : String) (r : Result) (s : AdminState)
    → is_confirmed r ≡ true
    → (verification_result did r s).institutions ≡ map (mark_verified did) s.institutions
unfolding verification_result
confirmed_result did r s e = ground (arith, e)

other_result :
    (did : String) (r : Result) (s : AdminState)
    → is_confirmed r ≡ false
    → verification_result did r s ≡ s
unfolding verification_result
other_result did r s e = ground (arith, e)

-- After the results of a verification, the institution of that address is shown as verified, and all
-- others as before, exactly if one of the results is finalized without a dispatch error; if none
-- is, nothing changes, also if a dispatch error is finalized, and no toast says so.
pub verification_results-confirmed :
    (did : String) (rs : List Result) (s : AdminState)
    → ((verification_results did rs s).institutions
        ≡ (if any_confirmed rs then map (mark_verified did) s.institutions else s.institutions))
      × (any_confirmed rs ≡ false → verification_results did rs s ≡ s)
unfolding verification_results
verification_results-confirmed did [] s = (refl, λ e. refl)
verification_results-confirmed did (r ∷ rs) s = elim (Bool-cases (is_confirmed r)) [
  | inl good ↦
      let (later, same) = verification_results-confirmed did rs (verification_result did r s) in
      (
        rw good (later ∙ rw (confirmed_result did r s good) (merged (any_confirmed rs))),
        λ e. ground (arith, e, good),
      )
  | inr bad ↦
      let (later, same) = verification_results-confirmed did rs s in
      let unchanged : verification_results did rs (verification_result did r s)
          ≡ verification_results did rs s =
        ap (verification_results did rs) (other_result did r s bad) in
      (ap (λ t. t.institutions) unchanged ∙ rw bad later, λ e. unchanged ∙ same (rw bad at e))
]
  where
    merged :
        (b : Bool)
        → (if b
            then map (mark_verified did) (map (mark_verified did) s.institutions)
            else map (mark_verified did) s.institutions)
          ≡ map (mark_verified did) s.institutions
    merged true = marked_twice did s.institutions
    merged false = refl

split_count :
    (known : List PendingInstitution)
    → count (λ i. not i.verified) known + count (λ i. i.verified) known ≡ length known
split_count [] = refl
split_count (i ∷ rest) = ground (arith, split_count rest)

module _ (hex_to_string : String → Settled String) where
  -- An institution as the page shows it, from an item of `getAllInstitutions`.
  abbrev pub shown_as : ℕ → InstitutionEntry → PendingInstitution
  shown_as now i = record {
    address = i.address;
    name = decode_institution_name hex_to_string i.name;
    registered_at = num_or i.registered_at now;
    verified = get_or i.verified false;
  }

  shown_entries :
      (now : ℕ) (entries : List (String × Option InstitutionData))
      → somes (map (pending_of hex_to_string now) entries)
        ≡ map (shown_as now) (somes (map entry_of entries))
  unfolding pending_of
  shown_entries now [] = refl
  shown_entries now ((a, none) ∷ rest) = shown_entries now rest
  shown_entries now ((a, some i) ∷ rest) =
      ap
        (λ l.
          shown_as now (record {
            address = a;
            name = i.name;
            verified = i.verified;
            registered_at = i.registered_at;
          })
          ∷ l)
        (shown_entries now rest)

  -- On a node with the DID pallet that answers, the page lists what `getAllInstitutions` gives, with
  -- decoded names, and splits it into the pending and the verified institutions.
  pub fetch_institutions-all :
      (api : Api) (entries : List (String × Option InstitutionData)) (s : AdminState)
      → check_pallet_availability api "did" ≡ true
      → api.institution_entries ≡ ok entries
      → let t = fetch_institutions hex_to_string (some api) s in
        (t.institutions ≡ map (shown_as api.now) (Real.get_all_institutions api))
        × (length (pending_institutions t) + length (verified_institutions t)
            ≡ length t.institutions)
  unfolding fetch_institutions show_institutions Real.get_all_institutions pending_institutions
      verified_institutions
  fetch_institutions-all api entries s there answered =
      rw (there, answered) (shown_entries api.now entries, split_count _)
