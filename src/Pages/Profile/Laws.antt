-- ===== src/Pages/Profile/Laws.antt =====
-- What the page of an institution shows.
use academic_verification.Prelude.{
  ℕ, ◌≤◌, ◌<◌, String, true, false, ◌==◌, Option, none, some, get_or, List, [], length, ok, err,
  str_or, ◌≡◌, ◌≢◌, refl, ◌⊎◌, inl, inr, arith, All, eq_iff, Bool-cases,
}
use academic_verification.Hex.{str}
use academic_verification.Chain.{Api, InstitutionData, ReputationScore}
use academic_verification.Queries.Plain.{zero_score}
use academic_verification.Did.HexBytes.{without_prefix}
use academic_verification.Did.HexBytes.Laws.{IsByte, written, written_not_empty, bytes_of-digits_of}
use academic_verification.Pages.Profile.{
  ProfileState, registered_at_ms, decoded_name, profile_of, load_failed, show_count,
  show_reputation, show_institution, fetch_institution_data,
}

-- At a moment after April 1970, the registration date of the page lies in milliseconds: it is at least
-- 10,000,000,000 or the second at which the year 2020 began; the block number of a chain of less than
-- 1,577,836,800 blocks is shown as the present moment.
pub registered_at_ms_bounds :
    (now t : ℕ)
    → 10000000000 ≤ now
    → (t < 1577836800 → registered_at_ms now t ≡ now)
      × ((10000000000 ≤ registered_at_ms now t) ⊎ (registered_at_ms now t ≡ 1577836800))
unfolding registered_at_ms
registered_at_ms_bounds now t h = (λ k. ground (arith, k), ground (arith, h))

module _ (decode_utf8 : List ℕ → String) (now : ℕ) where
  -- A name that the chain gives in hexadecimal digits is shown as the text of its bytes, unless that
  -- is empty: then the store's name is shown, or a general one.
  pub decoded_name-written :
      (kept : Option String) (bytes : List ℕ)
      → All IsByte bytes
      → decoded_name decode_utf8 now kept (str (written bytes))
        ≡ str_or (some (decode_utf8 bytes)) (str_or kept "Institution")
  unfolding decoded_name without_prefix
  decoded_name-written kept bytes h = rw (written_not_empty bytes, bytes_of-digits_of bytes h) refl

  -- What the page shows after a fetch, by the answers of the three queries.
  pub record IsShown (api : Api) (kept : Option String) (did : String) (s t : ProfileState)
      : Type 0 where
    pub loaded : t.loading ≡ false
    pub found :
        (i : InstitutionData)
        → api.institutions did ≡ ok (some i)
        → t.institution_data ≡ some (profile_of decode_utf8 now kept did i)
    pub complete :
        (i : InstitutionData) (score : Option ReputationScore) (ids : Option (List String))
        → api.institutions did ≡ ok (some i)
        → api.reputation_scores did ≡ ok score
        → api.credentials_by_issuer did ≡ ok ids
        → (t.reputation ≡ some (get_or score zero_score))
          × (t.issued_count ≡ length (get_or ids []))
    pub stale :
        ((message : String) × (api.institutions did ≡ err message))
          ⊎ (api.institutions did ≡ ok none)
        → (t.institution_data ≡ s.institution_data)
          × (t.reputation ≡ s.reputation)
          × (t.issued_count ≡ s.issued_count)

  show_institution-IsShown :
      (api : Api) (kept : Option String) (did : String) (s : ProfileState)
      → IsShown api kept did s
          (show_institution decode_utf8 now api kept did (api.institutions did) s)
  unfolding show_institution show_reputation show_count load_failed
  show_institution-IsShown api kept did s = record {
    loaded = ground arith;
    found = λ i e. rw e (ground arith);
    complete = λ i score ids e f g. rw (e, f, g) (refl, refl);
    stale = λ o. elim o [
      | inl failed ↦ let (message, e) = failed in rw e (refl, refl, refl)
      | inr e ↦ rw e (refl, refl, refl)
    ];
  }

  -- After a fetch on a connected page with an address the page is not loading; it shows the
  -- institution that the chain keeps under the address, its reputation and the number of its
  -- credentials if all three queries are answered; and if the first query is rejected or finds
  -- nothing, it shows what it showed before, of whichever address that was.
  pub fetch_institution_data-IsShown :
      (api : Api) (kept : Option String) (did : String) (s : ProfileState)
      → did ≢ ""
      → IsShown api kept did s (fetch_institution_data decode_utf8 now (some api) kept (some did) s)
  unfolding fetch_institution_data
  fetch_institution_data-IsShown api kept did s h = elim (Bool-cases (did == "")) [
    | inl empty ↦ let never = h ((eq_iff did "").0 empty) in elim never [ ]
    | inr other ↦
        let i = show_institution-IsShown api kept did (record s { loading = true }) in
        rw other
          (record { loaded = i.loaded; found = i.found; complete = i.complete; stale = i.stale })
  ]
