-- ===== src/Pages/Issued/Laws.antt =====
-- The statistics of the page, and what it fetches.
use academic_verification.Prelude.{
  subst, Bool-cases, ◌+◌, String, Bool, true, false, not, ◌==◌, ◌&&◌, Option, none, some, List, [],
  ◌∷◌, map, length, count, filter, Settled, ok, ◌≡◌, ◌≢◌, refl, ap, sym, ◌↔◌, Among, Among-map,
  map-Among, length-map, inl, inr, arith, eq_iff, if◌then◌else◌,
}
use academic_verification.Chain.{Api}
use academic_verification.Integration.Format.{Credential}
use academic_verification.Transactions.Submit.{TransactionResult}
use academic_verification.Queries.Real
use academic_verification.Queries.Real.Laws.{IsStored, get_credentials_by_issuer-Among}
use academic_verification.Pages.Issued.{
  IssuedCredential, IssuedState, Parsed, active, revoked, is_revoked, issued_of, show_issued,
  id_bytes, fetch_issued_credentials, mark_revoked, conclude_revocation, await_revocation,
  handle_revoke, matches_status, matches_search, filtered_credentials, stats,
}

-- The active credentials of that id.
abbrev pub is_pending : String → IssuedCredential → Bool
is_pending id c = (c.id == id) && not (is_revoked c.status)

count_both :
    (cs : List IssuedCredential)
    → count (λ c. not (is_revoked c.status)) cs + count (λ c. is_revoked c.status) cs ≡ length cs
count_both [] = refl
count_both (c ∷ cs) = ground (arith, count_both cs)

count_marked :
    (id : String) (cs : List IssuedCredential)
    → count (λ c. is_revoked c.status) (map (mark_revoked id) cs)
      ≡ count (λ c. is_revoked c.status) cs + count (is_pending id) cs
unfolding mark_revoked
count_marked id [] = refl
count_marked id (c ∷ cs) = ground (arith, count_marked id cs)

-- `stats` splits the credentials; with an empty search the list shows as many of them as `stats`
-- says, for each choice of the status.
pub filtered_credentials-stats :
    (lower : String → String) (s : IssuedState)
    → ((stats s).active + (stats s).revoked ≡ (stats s).total)
      × (length (filtered_credentials lower "" none s) ≡ (stats s).total)
      × (length (filtered_credentials lower "" (some active) s) ≡ (stats s).active)
      × (length (filtered_credentials lower "" (some revoked) s) ≡ (stats s).revoked)
unfolding stats filtered_credentials matches_status matches_search
filtered_credentials-stats lower s =
    (count_both s.credentials, ap length (all s.credentials), refl, refl)
  where
    all : (cs : List IssuedCredential) → filter (λ c. true) cs ≡ cs
    all [] = refl
    all (c ∷ cs) = ap (λ l. c ∷ l) (all cs)

abbrev pub succeeded : Option TransactionResult → Bool
succeeded none = false
succeeded (some r) = r.success

conclude-stats :
    (id : String) (o : Option TransactionResult) (s : IssuedState)
    → let t = await_revocation id o s in
      let k = if succeeded o then count (is_pending id) s.credentials else 0 in
      (length t.credentials ≡ length s.credentials)
      × (count (λ c. is_revoked c.status) t.credentials
          ≡ count (λ c. is_revoked c.status) s.credentials + k)
unfolding await_revocation conclude_revocation
conclude-stats id none s = (refl, omega arith)
conclude-stats id (some r) s =
    ground (arith, length-map (mark_revoked id) s.credentials, count_marked id s.credentials)

-- A confirmed revocation on a connected page leaves the number of credentials as it is; if the
-- transaction succeeds, the active credentials of that id are counted as revoked from then on, and
-- if it fails or stays pending, the numbers stay as they were.
pub handle_revoke-stats :
    (revoke : String → Option TransactionResult) (id : String) (s : IssuedState)
    → let t = stats (handle_revoke true (some revoke) id s) in
      let k = if succeeded (revoke (id_bytes id)) then count (is_pending id) s.credentials else 0 in
      (t.total ≡ (stats s).total)
      × (t.revoked ≡ (stats s).revoked + k)
      × (t.active + k ≡ (stats s).active)
unfolding stats handle_revoke
handle_revoke-stats revoke id s =
    let o = revoke (id_bytes id) in
    let s' = record s { revoking = some id } in
    let (kept, more) = conclude-stats id o s' in
    let before = count_both s.credentials in
    let after = count_both (await_revocation id o s').credentials in
    (kept, more, omega (arith, kept, more, before, after))

module _ (hex_to_string : String → Settled String) (parse_json : String → Settled Parsed) where
  show_issued-credentials :
      (cs : List Credential) (s : IssuedState)
      → (show_issued hex_to_string parse_json cs s).credentials
        ≡ map (issued_of hex_to_string parse_json) cs
  unfolding show_issued
  show_issued-credentials [] s = refl
  show_issued-credentials (c ∷ cs) s = refl

  fetch-credentials :
      (api : Api) (did : String) (s : IssuedState)
      → did ≢ ""
      → (fetch_issued_credentials hex_to_string parse_json (some api) (some did) s).credentials
        ≡ map (issued_of hex_to_string parse_json) (Real.get_credentials_by_issuer api did)
  unfolding fetch_issued_credentials
  fetch-credentials api did s h = elim (Bool-cases (did == "")) [
    | inl empty ↦ let never = h ((eq_iff did "").0 empty) in elim never [ ]
    | inr other ↦ rw other (show_issued-credentials (Real.get_credentials_by_issuer api did) _)
  ]

  -- For a connected page of an institution with an address, the credentials that are listed after
  -- they were fetched are exactly those that are stored, and can be formatted, under one of the ids
  -- that the chain keeps for the institution, each with its status.
  pub fetch_issued_credentials-Among :
      (api : Api) (did : String) (s : IssuedState) (x : IssuedCredential)
      → did ≢ ""
      → Among x
          (fetch_issued_credentials hex_to_string parse_json (some api) (some did) s).credentials
        ↔ ((ids : List String) × (id : String) × (c : Credential) × (api.credentials_by_issuer did
              ≡ ok (some ids))
            × Among id ids
            × IsStored api id c
            × (x ≡ issued_of hex_to_string parse_json c))
  fetch_issued_credentials-Among api did s x h =
      let f = issued_of hex_to_string parse_json in
      let same = fetch-credentials api did s h in
      (
        λ m.
            let (c, found, e) = Among-map f _ x (subst (Among x) same m) in
            let (ids, id, kept, listed, stored) =
              (get_credentials_by_issuer-Among api did c).0 found in
            (ids, id, c, kept, listed, stored, e),
        λ (ids, id, c, kept, listed, stored, e).
            let found =
              (get_credentials_by_issuer-Among api did c).1 (ids, id, kept, listed, stored) in
            subst (Among x) (sym same) (rw e (map-Among f _ c found)),
      )
