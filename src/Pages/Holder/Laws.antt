-- ===== src/Pages/Holder/Laws.antt =====
-- What the page of a holder fetches, and what the list shows of it.
use academic_verification.Prelude.{
  ℕ, String, Bool, true, ◌==◌, none, some, List, [], ◌∷◌, map, Settled, ok, err, ◌≡◌, ◌≢◌, refl, ap,
  sym, subst, ◌∙◌, ◌↔◌, Among, Among-map, map-Among, inl, inr, arith, eq_iff, Bool-cases,
}
use academic_verification.Chain.{Api, CredentialRef}
use academic_verification.Integration.Format.{Credential}
use academic_verification.Queries.Real
use academic_verification.Queries.Real.Laws.{IsStored, get_credentials_by_holder-Among}
use academic_verification.Credential.List.{
  ListedCredential, Choices, decoded, passes_search, passes_status, passes_type,
  filtered_credentials,
}
use academic_verification.Credential.List.Laws.{filtered_credentials-Among}
use academic_verification.Pages.Holder.{
  HolderState, Parsed, listed_of, show_credentials, fetch_credentials,
}

unanswered :
    (api : Api) (did message : String)
    → api.credentials_by_holder did ≡ err message
    → Real.get_credentials_by_holder api did ≡ []
unfolding Real.get_credentials_by_holder
unanswered api did message rejected = rw rejected (ground arith)

module _ (hex_to_string : String → Settled String) (parse_json : String → Settled Parsed) where
  show_credentials-credentials :
      (api : Api) (cs : List Credential) (s : HolderState)
      → (show_credentials hex_to_string parse_json api cs s).credentials
        ≡ map (listed_of hex_to_string parse_json api) cs
  unfolding show_credentials
  show_credentials-credentials api [] s = refl
  show_credentials-credentials api (c ∷ cs) s = refl

  pub fetch_credentials-eq :
      (api : Api) (did : String) (s : HolderState)
      → did ≢ ""
      → fetch_credentials hex_to_string parse_json (some api) (some did) s
        ≡ show_credentials hex_to_string parse_json api
            (Real.get_credentials_by_holder api did)
            (record s { loading = true; fetch_error = none })
  unfolding fetch_credentials
  fetch_credentials-eq api did s h = elim (Bool-cases (did == "")) [
    | inl empty ↦ let never = h ((eq_iff did "").0 empty) in elim never [ ]
    | inr other ↦ rw other refl
  ]

  pub fetch_credentials-credentials :
      (api : Api) (did : String) (s : HolderState)
      → did ≢ ""
      → (fetch_credentials hex_to_string parse_json (some api) (some did) s).credentials
        ≡ map (listed_of hex_to_string parse_json api) (Real.get_credentials_by_holder api did)
  fetch_credentials-credentials api did s h =
      rw (fetch_credentials-eq api did s h)
        (show_credentials-credentials api (Real.get_credentials_by_holder api did) _)

  -- After a fetch on a connected page with an address, the list shows exactly those credentials that
  -- are stored, and can be formatted, under one of the ids that the chain keeps for the holder, with
  -- the issuer's name and the degree decoded, and that pass the search and the two filters.
  pub filtered_credentials-fetch_credentials :
      (lower : String → String) (before : String → String → Bool) (now : ℕ) (o : Choices)
      (api : Api) (did : String) (s : HolderState) (x : ListedCredential)
      → did ≢ ""
      → Among x (
          filtered_credentials hex_to_string lower before now o
            (fetch_credentials hex_to_string parse_json (some api) (some did) s).credentials)
        ↔ (((refs : List CredentialRef) × (ref : CredentialRef) × (c : Credential)
              × (api.credentials_by_holder did ≡ ok (some refs))
              × Among ref refs
              × IsStored api ref.credential_id c
              × (x ≡ decoded hex_to_string (listed_of hex_to_string parse_json api c)))
            × (passes_search lower o.search_query x ≡ true)
            × (passes_status now o.filter_status x ≡ true)
            × (passes_type o.filter_type x ≡ true))
  filtered_credentials-fetch_credentials lower before now o api did s x h =
      let f = listed_of hex_to_string parse_json api in
      let g = decoded hex_to_string in
      let stored = Real.get_credentials_by_holder api did in
      let same = fetch_credentials-credentials api did s h in
      let (out, into) =
        filtered_credentials-Among hex_to_string lower before now o
          (fetch_credentials hex_to_string parse_json (some api) (some did) s).credentials x in
      (
        λ m.
            let (m', searched, stated, typed) = out m in
            let (y, listed, e) = Among-map g _ x m' in
            let (c, found, e') = Among-map f stored y (subst (Among y) same listed) in
            let (refs, ref, kept, among, is_stored) =
              (get_credentials_by_holder-Among api did c).0 found in
            ((refs, ref, c, kept, among, is_stored, e ∙ ap g e'), searched, stated, typed),
        λ ((refs, ref, c, kept, among, is_stored, e), searched, stated, typed).
            let found =
              (get_credentials_by_holder-Among api did c).1 (refs, ref, kept, among, is_stored) in
            into (
              subst
                  (λ y. Among y (
                    map g
                      (fetch_credentials hex_to_string parse_json (some api) (some did)
                        s).credentials))
                  (sym e)
                  (map-Among g _ (f c)
                    (subst (Among (f c)) (sym same) (map-Among f stored c found))),
              searched,
              stated,
              typed,
            ),
      )

  -- If the node rejects the query of the holder's credentials, the page shows an empty list, without
  -- an error and without a toast.
  pub fetch_credentials_unanswered :
      (api : Api) (did message : String) (s : HolderState)
      → did ≢ ""
      → api.credentials_by_holder did ≡ err message
      → let t = fetch_credentials hex_to_string parse_json (some api) (some did) s in
        (t.credentials ≡ []) × (t.fetch_error ≡ none) × (t.toasts ≡ s.toasts)
  unfolding show_credentials
  fetch_credentials_unanswered api did message s h rejected =
      rw (fetch_credentials-eq api did s h, unanswered api did message rejected) (refl, refl, refl)
